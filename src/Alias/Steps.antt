-- ===== src/Alias/Steps.antt =====
-- The expansion as a chain of replacements of the first word.
use las_shell.Prelude.{
  ℕ, zero, suc, ◌≤◌, ◌≡◌, ◌≢◌, refl, ap, ◌∙◌, ◌⊎◌, inl, inr, Bytes, true, none, some, List, [], ◌∷◌,
  ◌++◌, arith, Option-cases,
}
use las_shell.Alias.Table.{Alias, find_alias}
use las_shell.Alias.Expand.{
  expand_once, expand_loop, expand_aliases, names_itself, first_word, substitute,
}

-- `n` rounds that do not break lead from one line to another.
pub data Expands (table : List Alias) : ℕ → Bytes → Bytes → Type 0 where
  done : {s : Bytes} → Expands table zero s s
  more :
      {n : ℕ} {s t u : Bytes}
      → expand_once table s ≡ some t
      → Expands table n t u
      → Expands table (suc n) s u

-- How a loop of at most `n` rounds ended.
abbrev Ends : List Alias → ℕ → Bytes → Bytes → Type 0
Ends table n s r =
    (k : ℕ) × Expands table k s r × ((k ≤ n) × ((expand_once table r ≡ none) ⊎ (k ≡ n)))

Ends-cons :
    (table : List Alias) (n : ℕ) (s t r : Bytes)
    → expand_once table s ≡ some t
    → Ends table n t r
    → Ends table (suc n) s r
Ends-cons table n s t r go (k, steps, (l, inl stop)) =
    (suc k, more go steps, (omega arith, inl stop))
Ends-cons table n s t r go (k, steps, (l, inr all)) =
    (suc k, more go steps, (omega arith, inr (omega arith)))

expand_loop-Ends : (n : ℕ) (table : List Alias) (s : Bytes) → Ends table n s (expand_loop n table s)
unfolding expand_loop
expand_loop-Ends zero table s = (0, done, (omega arith, inr refl))
expand_loop-Ends (suc n) table s = elim (Option-cases (expand_once table s)) [
  | inl stop ↦ rw (stop, expand_loop) (0, done, (omega arith, inl stop))
  | inr (t, go) ↦
      rw (go, expand_loop)
        (Ends-cons table n s t (expand_loop n table t) go (expand_loop-Ends n table t))
]

pub expand_aliases-Ends :
    (table : List Alias) (s : Bytes) → s ≢ [] → Ends table 10 s (expand_aliases table s)
unfolding expand_aliases
expand_aliases-Ends table [] h = absurd (h refl)
expand_aliases-Ends table (c ∷ cs) h = expand_loop-Ends 10 table (c ∷ cs)

-- The text ends with this one.
abbrev pub Suffix : Bytes → Bytes → Type 0
Suffix t s = (pre : Bytes) × (s ≡ pre ++ t)

-- An alias whose value begins with its own name is never expanded.
pub expand_aliases_self :
    (table : List Alias) (s value : Bytes)
    → find_alias (first_word s) table ≡ some value
    → names_itself value (first_word s) ≡ true
    → expand_aliases table s ≡ s
unfolding expand_aliases expand_once
expand_aliases_self table [] value e h = refl
expand_aliases_self table (c ∷ cs) value e h =
    let stop : expand_once table (c ∷ cs) ≡ none = ap (substitute (c ∷ cs)) e ∙ rw h in
    rw (stop, expand_loop) refl
