-- ===== src/Registry/Walk.antt =====
-- `next_array_object`: what it cuts out of the text, and that it finds every well-formed object.
use mathlib.Core.Option
use las_shell.Prelude.{
  ℕ, suc, ◌<◌, ◌≤◌, ◌≡◌, refl, ap, sym, ◌∙◌, Bytes, length, Bool, true, false, not, ◌&&◌, Option,
  none, some, [], ◌∷◌, ◌++◌, ◌==◌, arith, Only, length-append, append_assoc, Bool-cases, inl, inr,
}
use las_shell.Registry.Json.{
  Place, outside, inside, escaped, walk, push, after, depth_after, ends, is_open, is_close,
  skip_to_object, object_at, next_array_object,
}

-- A result holds the text in two parts.
abbrev Splits : Bytes → Option (Bytes × Bytes) → Type 0
Splits s none = Unit
Splits s (some (obj, rest)) = obj ++ rest ≡ s

push-Splits :
    (c : ℕ) (s : Bytes) (r : Option (Bytes × Bytes)) → Splits s r → Splits (c ∷ s) (push c r)
push-Splits c s none h = tt
push-Splits c s (some (obj, rest)) h = ap (◌∷◌ c) h

walk-Splits :
    (opens closes : ℕ → Bool) (place : Place) (depth : ℕ) (s : Bytes)
    → Splits s (walk opens closes place depth s)
unfolding walk
walk-Splits opens closes outside depth [] = refl
walk-Splits opens closes inside depth [] = tt
walk-Splits opens closes escaped depth [] = tt
walk-Splits opens closes outside depth (c ∷ cs) =
    let ih =
      walk-Splits opens closes (after outside c) (depth_after opens closes depth outside c) cs in
    elim (Bool-cases (ends opens closes depth outside c)) [
      | inl stop ↦ rw (stop, Splits) refl
      | inr on ↦ rw (on, Splits) (push-Splits c cs _ ih)
    ]
walk-Splits opens closes inside depth (c ∷ cs) =
    push-Splits c cs _ (walk-Splits opens closes (after inside c) depth cs)
walk-Splits opens closes escaped depth (c ∷ cs) =
    push-Splits c cs _ (walk-Splits opens closes (after escaped c) depth cs)

-- The text inside a string: no bare quote, and a byte behind each backslash.
pub data StringBody : Bytes → Type 0 where
  end : StringBody []
  byte :
      {c : ℕ} {s : Bytes}
      → (c == b'"') ≡ false
      → (c == b'\\') ≡ false
      → StringBody s
      → StringBody (c ∷ s)
  escape : {c : ℕ} {s : Bytes} → StringBody s → StringBody (b'\\' ∷ c ∷ s)

-- The text between two brackets: every string is ended and every bracket closed by one of the kind
-- that the walk counts.
pub data Body : Bytes → Type 0 where
  nil : Body []
  plain :
      {c : ℕ} {s : Bytes}
      → is_open c ≡ false
      → is_close c ≡ false
      → (c == b'"') ≡ false
      → Body s
      → Body (c ∷ s)
  string : (t s : Bytes) → StringBody t → Body s → Body (b'"' ∷ (t ++ (b'"' ∷ s)))
  nested :
      (o c : ℕ) (s t : Bytes)
      → is_open o ≡ true
      → is_open c ≡ false
      → is_close c ≡ true
      → Body s
      → Body t
      → Body (o ∷ (s ++ (c ∷ t)))

abbrev prepend : Bytes → Option (Bytes × Bytes) → Option (Bytes × Bytes)
prepend s none = none
prepend s (some (obj, rest)) = some (s ++ obj, rest)

push-prepend :
    (c : ℕ) (s : Bytes) (r : Option (Bytes × Bytes)) → push c (prepend s r) ≡ prepend (c ∷ s) r
push-prepend c s none = refl
push-prepend c s (some (obj, rest)) = refl

prepend-nil : (r : Option (Bytes × Bytes)) → prepend [] r ≡ r
prepend-nil none = refl
prepend-nil (some (obj, rest)) = refl

prepend-prepend :
    (s t : Bytes) (r : Option (Bytes × Bytes)) → prepend s (prepend t r) ≡ prepend (s ++ t) r
prepend-prepend s t none = refl
prepend-prepend s t (some (obj, rest)) = ap (λ x. some (x, rest)) (sym (append_assoc s t obj))

abbrev scan : Place → ℕ → Bytes → Option (Bytes × Bytes)
scan = walk is_open is_close

scan-StringBody :
    {t : Bytes} (depth : ℕ) (rest : Bytes)
    → StringBody t
    → scan inside depth (t ++ (b'"' ∷ rest)) ≡ prepend (t ++ (b'"' ∷ [])) (scan outside depth rest)
unfolding walk
scan-StringBody depth rest end = refl
scan-StringBody depth rest (byte {c} {s} q b h) =
    rw (q, b, after) (ap (push c) (scan-StringBody depth rest h) ∙ push-prepend c _ _)
scan-StringBody depth rest (escape {c} {s} h) =
    ap (λ r. push b'\\' (push c r)) (scan-StringBody depth rest h)
    ∙ ap (push b'\\') (push-prepend c (s ++ (b'"' ∷ [])) _)
    ∙ push-prepend b'\\' (c ∷ (s ++ (b'"' ∷ []))) _

scan-open :
    (o : ℕ) (s : Bytes) (depth : ℕ)
    → is_open o ≡ true
    → scan outside depth (o ∷ s) ≡ push o (scan outside (suc depth) s)
unfolding walk
scan-open o s depth h = ground arith

scan-close :
    (c : ℕ) (s : Bytes) (depth : ℕ)
    → is_open c ≡ false
    → is_close c ≡ true
    → scan outside (suc (suc depth)) (c ∷ s) ≡ push c (scan outside (suc depth) s)
unfolding walk
scan-close c s depth h k = ground arith

wrap :
    (o c : ℕ) (s t : Bytes) (r : Option (Bytes × Bytes))
    → push o (prepend s (push c (prepend t r))) ≡ prepend (o ∷ (s ++ (c ∷ t))) r
wrap o c s t none = refl
wrap o c s t (some (obj, rest)) = ap (λ x. some (o ∷ x, rest)) (sym (append_assoc s (c ∷ t) obj))

scan-Body :
    {s : Bytes} (depth : ℕ) (rest : Bytes)
    → Body s
    → scan outside (suc depth) (s ++ rest) ≡ prepend s (scan outside (suc depth) rest)
unfolding walk
scan-Body depth rest nil = sym (prepend-nil (scan outside (suc depth) rest))
scan-Body depth rest (plain {c} {s} o k q h) =
    rw (o, k, q) (ap (push c) (scan-Body depth rest h) ∙ push-prepend c s _)
scan-Body depth rest (string t s b h) = rw (append_assoc t (b'"' ∷ s) rest) (
    ap (push b'"') (scan-StringBody (suc depth) (s ++ rest) b)
    ∙ push-prepend b'"' (t ++ (b'"' ∷ [])) _
    ∙ ap (prepend (b'"' ∷ (t ++ (b'"' ∷ [])))) (scan-Body depth rest h)
    ∙ prepend-prepend (b'"' ∷ (t ++ (b'"' ∷ []))) s _
    ∙ ap (λ x. prepend (b'"' ∷ x) (scan outside (suc depth) rest)) (append_assoc t (b'"' ∷ []) s))
scan-Body depth rest (nested o c s t open_o open_c close h k) = rw (append_assoc s (c ∷ t) rest) (
    scan-open o _ (suc depth) open_o
    ∙ ap (push o) (
        scan-Body (suc depth) (c ∷ (t ++ rest)) h
        ∙ ap (prepend s)
            (scan-close c (t ++ rest) depth open_c close ∙ ap (push c) (scan-Body depth rest k)))
    ∙ wrap o c s t (scan outside (suc depth) rest))

-- Text in front of an object holds no opening brace and no closing bracket.
abbrev pub is_gap : ℕ → Bool
is_gap c = not (c == b'{') && not (c == b']')

skip_to_object-append :
    (gap : Bytes) (s : Bytes) → Only is_gap gap → skip_to_object (gap ++ (b'{' ∷ s)) ≡ b'{' ∷ s
unfolding skip_to_object
skip_to_object-append [] s h = refl
skip_to_object-append (c ∷ gap) s h = ground (arith, skip_to_object-append gap s h.1)

-- The next well-formed object of an array is cut out whole, with its braces, and the cursor stands
-- right behind it.
pub next_array_object-Body :
    (gap body rest : Bytes)
    → Only is_gap gap
    → Body body
    → next_array_object (gap ++ (b'{' ∷ (body ++ (b'}' ∷ rest))))
      ≡ some (some (b'{' ∷ (body ++ (b'}' ∷ []))), rest)
unfolding next_array_object
next_array_object-Body gap body rest h k =
    ap object_at (skip_to_object-append gap (body ++ (b'}' ∷ rest)) h)
    ∙ ap (Option.map (λ (p : Bytes × Bytes). (some p.0, p.1))) (
        scan-open b'{' (body ++ (b'}' ∷ rest)) 0 refl
        ∙ ap (push b'{') (scan-Body 0 (b'}' ∷ rest) k ∙ ap (prepend body) last))
  where
    last : scan outside 1 (b'}' ∷ rest) ≡ some (b'}' ∷ [], rest)
    last = refl

unended :
    (s : Bytes) (depth : ℕ)
    → Only (λ c. not (c == b'"') && not (c == b'\\')) s
    → scan inside depth s ≡ none
unfolding walk
unended [] depth h = refl
unended (c ∷ cs) depth h = ground (arith, unended cs depth h.1)

-- A string in an object that the text ends in is read behind the end of the text.
pub next_array_object_unended :
    (gap s : Bytes)
    → Only is_gap gap
    → Only (λ c. not (c == b'"') && not (c == b'\\')) s
    → next_array_object (gap ++ (b'{' ∷ b'"' ∷ s)) ≡ none
unfolding next_array_object walk
next_array_object_unended gap s h k =
    ap object_at (skip_to_object-append gap (b'"' ∷ s) h) ∙ rw (unended s 1 k) refl

-- A walk from an opening brace passes at least that brace.
abbrev Shortens : ℕ → Option (Bytes × Bytes) → Type 0
Shortens n none = Unit
Shortens n (some (obj, rest)) = length rest < n

Splits-Shortens :
    (c : ℕ) (s : Bytes) (r : Option (Bytes × Bytes))
    → Splits s r
    → Shortens (suc (length s)) (push c r)
Splits-Shortens c s none h = tt
Splits-Shortens c s (some (obj, rest)) h =
    omega (arith, ap (length {A = ℕ}) h, length-append {0} obj rest)

walk-Shortens : (c : ℕ) (cs : Bytes) → Shortens (suc (length cs)) (scan outside 0 (c ∷ cs))
unfolding walk
walk-Shortens c cs = elim (Bool-cases (ends is_open is_close 0 outside c)) [
  | inl stop ↦ rw (stop, Shortens) (omega arith)
  | inr on ↦
      rw (on, Shortens)
        (Splits-Shortens c cs _ (
          walk-Splits is_open is_close (after outside c) (depth_after is_open is_close 0 outside c)
            cs))
]

-- A cursor that has passed an object is nearer to the end.
abbrev pub Advances : ℕ → Option (Option Bytes × Bytes) → Type 0
Advances n none = Unit
Advances n (some (none, rest)) = Unit
Advances n (some (some obj, rest)) = length rest < n

Advances-walk :
    (n m : ℕ) (r : Option (Bytes × Bytes))
    → n ≤ m
    → Shortens n r
    → Advances m (Option.map (λ p. (some p.0, p.1)) r)
Advances-walk n m none l h = tt
Advances-walk n m (some (obj, rest)) l h = omega arith

skip_to_object_le : (s : Bytes) → length (skip_to_object s) ≤ length s
unfolding skip_to_object
skip_to_object_le [] = omega arith
skip_to_object_le (c ∷ cs) = ground (arith, skip_to_object_le cs)

object_at-Advances : (n : ℕ) (s : Bytes) → length s ≤ n → Advances n (object_at s)
object_at-Advances n [] l = tt
object_at-Advances n (c ∷ cs) l = elim (Bool-cases (c == b'{')) [
  | inl brace ↦
      rw (brace, Advances)
        (Advances-walk (suc (length cs)) n (scan outside 0 (c ∷ cs)) l (walk-Shortens c cs))
  | inr other ↦ rw (other, Advances) tt
]

pub next_array_object-Advances :
    (cursor : Bytes) → Advances (length cursor) (next_array_object cursor)
unfolding next_array_object
next_array_object-Advances cursor =
    object_at-Advances (length cursor) (skip_to_object cursor) (skip_to_object_le cursor)
