-- ===== src/Risk/Text/Tokens.antt =====
-- Tokens and trimming of texts that are written in the usual way.
use las_shell.Prelude.{
  ℕ, ◌≡◌, ◌≢◌, refl, ap, ◌∙◌, Bytes, Bool, true, false, not, List, [], ◌∷◌, ◌++◌, arith, Only, All,
}
use las_shell.Risk.Text.{
  is_white, trim_front, trim_back, cons_unless_end, trim_ws, push_token, token_front, strtok_all,
}

module _ (is_delim : ℕ → Bool) where
  abbrev pub IsToken : Bytes → Type 0
  IsToken t = (t ≢ []) × Only (λ c. not (is_delim c)) t

  push_token-IsToken : (t : Bytes) (ts : List Bytes) → t ≢ [] → push_token t ts ≡ t ∷ ts
  push_token-IsToken [] ts h = absurd (h refl)
  push_token-IsToken (c ∷ cs) ts h = refl

  token_front-token :
      (t : Bytes) (d : ℕ) (rest : Bytes)
      → is_delim d ≡ true
      → Only (λ c. not (is_delim c)) t
      → token_front is_delim (t ++ (d ∷ rest)) ≡ (t, strtok_all is_delim rest)
  unfolding token_front strtok_all
  token_front-token [] d rest h k = rw h refl
  token_front-token (c ∷ t) d rest h k =
      let e : is_delim c ≡ false = ground (arith, k.0) in
      rw e (ap (λ p. (c ∷ p.0, p.1)) (token_front-token t d rest h k.1))

  -- A token in front of a delimiter is the first of the tokens.
  strtok_all-token :
      (t : Bytes) (d : ℕ) (rest : Bytes)
      → is_delim d ≡ true
      → IsToken t
      → strtok_all is_delim (t ++ (d ∷ rest)) ≡ t ∷ strtok_all is_delim rest
  unfolding strtok_all
  strtok_all-token t d rest h (n, k) =
      ap (λ p. push_token p.0 p.1) (token_front-token t d rest h k)
      ∙ push_token-IsToken t (strtok_all is_delim rest) n

  token_front-last : (t : Bytes) → Only (λ c. not (is_delim c)) t → token_front is_delim t ≡ (t, [])
  unfolding token_front
  token_front-last [] k = refl
  token_front-last (c ∷ t) k =
      let e : is_delim c ≡ false = ground (arith, k.0) in
      rw e (ap (λ p. (c ∷ p.0, p.1)) (token_front-last t k.1))

  strtok_all-nil : strtok_all is_delim [] ≡ []
  unfolding strtok_all token_front
  strtok_all-nil = refl

  strtok_all-last : (t : Bytes) → IsToken t → strtok_all is_delim t ≡ t ∷ []
  unfolding strtok_all
  strtok_all-last t (n, k) =
      ap (λ p. push_token p.0 p.1) (token_front-last t k) ∙ push_token-IsToken t [] n

-- Texts with a delimiter between them.
abbrev pub joined : ℕ → List Bytes → Bytes
joined d [] = []
joined d (s ∷ []) = s
joined d (s ∷ t ∷ ts) = s ++ (d ∷ joined d (t ∷ ts))

pub strtok_all-joined :
    (is_delim : ℕ → Bool) (d : ℕ) (ss : List Bytes)
    → is_delim d ≡ true
    → All (IsToken is_delim) ss
    → strtok_all is_delim (joined d ss) ≡ ss
strtok_all-joined is_delim d [] h k = strtok_all-nil is_delim
strtok_all-joined is_delim d (s ∷ []) h k = strtok_all-last is_delim s k.0
strtok_all-joined is_delim d (s ∷ t ∷ ts) h k =
    strtok_all-token is_delim s d (joined d (t ∷ ts)) h k.0
    ∙ ap (◌∷◌ s) (strtok_all-joined is_delim d (t ∷ ts) h k.1)

abbrev pub last_or : ℕ → Bytes → ℕ
last_or c [] = c
last_or c (d ∷ ds) = last_or d ds

-- A text with no white space at its ends.
abbrev pub IsTrimmed : Bytes → Type 0
IsTrimmed [] = Unit
IsTrimmed (c ∷ cs) = (is_white c ≡ false) × (is_white (last_or c cs) ≡ false)

trim_back_lem : (c : ℕ) (cs : Bytes) → is_white (last_or c cs) ≡ false → trim_back (c ∷ cs) ≡ c ∷ cs
unfolding trim_back
trim_back_lem c [] h = rw h refl
trim_back_lem c (d ∷ ds) h = ap (cons_unless_end c) (trim_back_lem d ds h)

pub trim_ws-IsTrimmed : (s : Bytes) → IsTrimmed s → trim_ws s ≡ s
unfolding trim_ws trim_front
trim_ws-IsTrimmed [] h = refl
trim_ws-IsTrimmed (c ∷ cs) (h, k) = rw h (trim_back_lem c cs k)
