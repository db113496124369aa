-- ===== src/CString/Search.antt =====
-- src/helper.c: `my_strchr` and `my_strcspn`. A pointer into a text is the text from there on.
use las_shell.Prelude.{
  ℕ, suc, ◌+◌, ◌%◌, ◌<◌, ◌≤◌, ◌≡◌, ◌⊎◌, inl, inr, refl, Bytes, peek, Only, length, take, drop, Bool,
  true, false, not, Option, none, some, [], ◌∷◌, ◌++◌, arith, ◌==◌, if◌then◌else◌, Bool-cases,
}

-- `(char)c` keeps the low byte; the test for the terminator looks at the whole `int`.
unfoldable pub my_strchr : Bytes → ℕ → Option Bytes
my_strchr [] c = if c == 0 then some [] else none
my_strchr (x ∷ xs) c = if x == c % 256 then some (x ∷ xs) else my_strchr xs c

abbrev pub is_some {ℓ} : {A : Type ℓ} → Option A → Bool
is_some none = false
is_some (some a) = true

-- `my_strchr(delim, c) != NULL`
unfoldable pub in_set : Bytes → ℕ → Bool
unfolding my_strchr
in_set delim c = is_some (my_strchr delim c)

unfoldable pub cspn_from : ℕ → Bytes → Bytes → ℕ
cspn_from count [] reject = count
cspn_from count (x ∷ xs) reject = if in_set reject x then count else cspn_from (count + 1) xs reject

unfoldable pub my_strcspn : Bytes → Bytes → ℕ
unfolding cspn_from
my_strcspn s reject = cspn_from 0 s reject

-- A byte other than the NUL is found at its first place, with all that follows, and NULL is the
-- answer for a text without it.
pub my_strchr-first :
    (pre : Bytes) (c : ℕ)
    → 0 < c
    → c < 256
    → Only (λ x. not (x == c)) pre
    → ((rest : Bytes) → my_strchr (pre ++ (c ∷ rest)) c ≡ some (c ∷ rest))
      × (my_strchr pre c ≡ none)
unfolding my_strchr
my_strchr-first [] c p q h = ((λ rest. ground arith), ground arith)
my_strchr-first (x ∷ xs) c p q h =
    let (found, missing) = my_strchr-first xs c p q h.1 in
    ((λ rest. ground (arith, found rest)), ground arith)

-- Where a scan of `s` for a byte that `p` takes stopped after `n` bytes.
abbrev pub StopsAt : (ℕ → Bool) → Bytes → ℕ → Type 0
StopsAt p s n =
    (n ≤ length s)
    × Only (λ x. not (p x)) (take n s)
    × ((drop n s ≡ []) ⊎ (p (peek (drop n s)) ≡ true))

cspn_from_lem :
    (count : ℕ) (s reject : Bytes)
    → (n : ℕ) × (cspn_from count s reject ≡ count + n) × StopsAt (in_set reject) s n
unfolding cspn_from
cspn_from_lem count [] reject = (0, omega arith, (omega arith, tt, inl refl))
cspn_from_lem count (x ∷ xs) reject = elim (Bool-cases (in_set reject x)) [
  | inl hit ↦ (0, rw hit (omega arith), (omega arith, tt, inr hit))
  | inr miss ↦
      let (n, e, (b, only, stop)) = cspn_from_lem (count + 1) xs reject in
      (suc n, rw miss (omega arith), (omega arith, (rw miss, only), stop))
]

-- `my_strcspn` counts the bytes in front of the first byte of `reject`: none of the counted bytes
-- is in `reject`, and what follows them is such a byte or the end of the text.
pub my_strcspn_stops : (s reject : Bytes) → StopsAt (in_set reject) s (my_strcspn s reject)
unfolding my_strcspn
my_strcspn_stops s reject =
    let (n, e, h) = cspn_from_lem 0 s reject in
    let same : cspn_from 0 s reject ≡ n = omega (arith, e) in rw same h
