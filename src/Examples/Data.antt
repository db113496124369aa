-- ===== src/Examples/Data.antt =====
-- What the examples share: predicates on concrete texts, decided by running their tests.
use las_shell.Prelude.{
  ℕ, Bytes, Bool, true, ◌&&◌, [], ◌∷◌, ltb, List, ◌≡◌, ◌≢◌, subst, arith, Only, IsText,
}

abbrev pub holds : (ℕ → Bool) → Bytes → Bool
holds p [] = true
holds p (c ∷ cs) = p c && holds p cs

pub only : (p : ℕ → Bool) (s : Bytes) → holds p s ≡ true → Only p s
only p [] h = tt
only p (c ∷ cs) h = (ground arith, only p cs (ground arith))

pub text : (s : Bytes) → holds (ltb 0) s ≡ true → IsText s
text [] h = tt
text (c ∷ cs) h = (ground arith, text cs (ground arith))

pub cons_ne_nil {ℓ} : {A : Type ℓ} (x : A) (xs : List A) → (x ∷ xs) ≢ []
cons_ne_nil {A = A} x xs h = subst {A = List A} (λ l. elim l [ [] ↦ ⊥ | y ∷ ys ↦ Unit ]) h tt
