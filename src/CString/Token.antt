-- ===== src/CString/Token.antt =====
-- src/helper.c: `my_strtok`. The call writes a NUL behind the token inside the caller's buffer; the
-- model keeps the two texts that result, the token and what `*saveptr` points at.
use las_shell.Prelude.{
  ℕ, zero, suc, ◌<◌, ◌≤◌, ◌≡◌, ◌≢◌, refl, Bytes, Only, length, true, false, not, Option, none, some,
  List, [], ◌∷◌, ◌++◌, arith, if◌then◌else◌, Bool-cases, inl, inr, All, ap, sym, ◌∙◌,
}
use las_shell.CString.Search.{in_set}

-- `while (*start && my_strchr(delim, *start)) start++;`
unfoldable pub skip_delims : Bytes → Bytes → Bytes
skip_delims delim [] = []
skip_delims delim (c ∷ cs) = if in_set delim c then skip_delims delim cs else c ∷ cs

-- `while (*end && !my_strchr(delim, *end)) end++;`: the token, and the text from `end` on.
unfoldable pub span_token : Bytes → Bytes → Bytes × Bytes
span_token delim [] = ([], [])
span_token delim (c ∷ cs) =
    let (tok, end) = span_token delim cs in if in_set delim c then ([], c ∷ cs) else (c ∷ tok, end)

-- The new `*saveptr`: behind the NUL that was written, or at the end.
abbrev after_end : Bytes → Bytes
after_end [] = []
after_end (c ∷ cs) = cs

token_at : Bytes → Bytes → Option Bytes × Bytes
unfolding span_token
token_at delim [] = (none, [])
token_at delim (c ∷ cs) = let (tok, end) = span_token delim (c ∷ cs) in (some tok, after_end end)

abbrev start_of : Option Bytes → Bytes → Bytes
start_of (some str) saveptr = str
start_of none saveptr = saveptr

unfoldable pub my_strtok : Option Bytes → Bytes → Bytes → Option Bytes × Bytes
unfolding skip_delims token_at
my_strtok str delim saveptr = token_at delim (skip_delims delim (start_of str saveptr))

-- The bytes that no delimiter takes, in order.
unfoldable pub strip : Bytes → Bytes → Bytes
strip delim [] = []
strip delim (c ∷ cs) = let rest = strip delim cs in if in_set delim c then rest else c ∷ rest

abbrev pub concat : List Bytes → Bytes
concat [] = []
concat (t ∷ ts) = t ++ concat ts

abbrev pub IsToken : Bytes → Bytes → Type 0
IsToken delim t = (t ≢ []) × Only (λ c. not (in_set delim c)) t

-- What `span_token` returns from `s`.
abbrev Spans : Bytes → Bytes → Bytes × Bytes → Type 0
Spans delim s (tok, end) =
    Only (λ c. not (in_set delim c)) tok
    × (strip delim s ≡ tok ++ strip delim (after_end end))
    × (length (after_end end) ≤ length s)

span_token-Spans : (delim s : Bytes) → Spans delim s (span_token delim s)
unfolding span_token strip
span_token-Spans delim [] = (tt, refl, omega arith)
span_token-Spans delim (c ∷ cs) =
    let (only, e, l) = span_token-Spans delim cs in
    elim (Bool-cases (in_set delim c)) [
      | inl hit ↦ rw hit (tt, refl, omega arith)
      | inr miss ↦ rw miss ((rw miss, only), ap (◌∷◌ c) e, omega arith)
    ]

-- One call either reports that only delimiters are left, or returns a token and the text behind it.
abbrev Call : Bytes → Bytes → Option Bytes × Bytes → Type 0
Call delim s (none, rest) = strip delim s ≡ []
Call delim s (some t, rest) =
    IsToken delim t × (strip delim s ≡ t ++ strip delim rest) × (length rest < length s)

Call-skip :
    (delim : Bytes) (c : ℕ) (cs : Bytes) (r : Option Bytes × Bytes)
    → in_set delim c ≡ true
    → Call delim cs r
    → Call delim (c ∷ cs) r
unfolding strip
Call-skip delim c cs (none, rest) hit h = rw hit h
Call-skip delim c cs (some t, rest) hit h = rw hit (h.0, h.1, omega arith)

token_at-Call :
    (delim : Bytes) (c : ℕ) (cs : Bytes)
    → in_set delim c ≡ false
    → Call delim (c ∷ cs) (token_at delim (c ∷ cs))
unfolding token_at strip
token_at-Call delim c cs miss =
    let (only, e, l) = span_token-Spans delim cs in
    rw miss (((λ nil. ground arith), (rw miss, only)), ap (◌∷◌ c) e, omega arith)

my_strtok-Call : (delim s : Bytes) → Call delim s (my_strtok none delim s)
unfolding my_strtok strip
my_strtok-Call delim [] = refl
my_strtok-Call delim (c ∷ cs) = elim (Bool-cases (in_set delim c)) [
  | inl hit ↦ rw (hit, skip_delims) (Call-skip delim c cs _ hit (my_strtok-Call delim cs))
  | inr miss ↦ rw (miss, skip_delims) (token_at-Call delim c cs miss)
]

abbrev push_token : Option Bytes → Option (List Bytes) → Option (List Bytes)
push_token none later = some []
push_token (some t) none = none
push_token (some t) (some ts) = some (t ∷ ts)

-- A caller's loop `while ((tok = my_strtok(NULL, delim, &save)) != NULL)`, on fuel.
unfoldable pub strtok_loop : ℕ → Bytes → Bytes → Option (List Bytes)
unfolding my_strtok
strtok_loop zero delim saveptr = none
strtok_loop (suc fuel) delim saveptr =
    let later = strtok_loop fuel delim (my_strtok none delim saveptr).1 in
    push_token (my_strtok none delim saveptr).0 later

-- What a loop over the whole of `s` has returned.
abbrev pub Tokens : Bytes → Bytes → Option (List Bytes) → Type 0
Tokens delim s none = ⊥
Tokens delim s (some ts) = (concat ts ≡ strip delim s) × All (IsToken delim) ts

push_token-Tokens :
    (delim s : Bytes) (r : Option Bytes × Bytes) (later : Option (List Bytes))
    → Call delim s r
    → (length r.1 < length s → Tokens delim r.1 later)
    → Tokens delim s (push_token r.0 later)
push_token-Tokens delim s (none, rest) later h k = (sym h, tt)
push_token-Tokens delim s (some t, rest) none h k = absurd (k h.2)
push_token-Tokens delim s (some t, rest) (some ts) h k =
    (ap (◌++◌ t) (k h.2).0 ∙ sym h.1, (h.0, (k h.2).1))

-- Calling `my_strtok` until it returns NULL terminates, with fuel above the text's length. The
-- tokens are not empty and hold no delimiter, and joined they are the text without its delimiters.
pub strtok_loop-Tokens :
    (fuel : ℕ) (delim s : Bytes) → length s < fuel → Tokens delim s (strtok_loop fuel delim s)
unfolding strtok_loop
strtok_loop-Tokens zero delim s h = elim h [ ]
strtok_loop-Tokens (suc fuel) delim s h =
    push_token-Tokens delim s (my_strtok none delim s) _ (my_strtok-Call delim s)
      (λ l. strtok_loop-Tokens fuel delim _ (omega arith))
