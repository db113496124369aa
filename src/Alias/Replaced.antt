-- ===== src/Alias/Replaced.antt =====
-- What one round of `expand_aliases` does to a line, told without the code's own loops and tests.
use las_shell.Prelude.{
  ℕ, zero, suc, ◌≤◌, ◌≡◌, ◌≢◌, refl, ap, sym, ◌⊎◌, inl, inr, Bytes, take, true, false, Option, none,
  some, List, [], ◌∷◌, ◌++◌, arith, All, Bool-cases,
}
use las_shell.Alias.Table.{Alias, same_name, find_alias}
use las_shell.Alias.Expand.{
  is_space, split_word, skip_spaces, arguments, first_word, rest_of, names_itself, joined,
  substitute, expand_once, expand_aliases,
}
use las_shell.Alias.Steps.{Expands, done, more, expand_aliases-Ends}

abbrev pub IsBlank : ℕ → Type 0
IsBlank c = (c ≡ b' ') ⊎ (c ≡ b'\t')

-- The end of a text, or a blank.
abbrev pub Ended : Bytes → Type 0
Ended [] = Unit
Ended (c ∷ cs) = IsBlank c

-- The end of a text, or a byte that is no blank.
abbrev pub Unblank : Bytes → Type 0
Unblank [] = Unit
Unblank (c ∷ cs) = IsBlank c → ⊥

-- The text starts with this word, up to the first blank, and goes on with the tail.
abbrev pub Begins : Bytes → Bytes → Bytes → Type 0
Begins s word tail = (s ≡ word ++ tail) × All (λ c. IsBlank c → ⊥) word × Ended tail

-- Blanks stand in front of the text.
abbrev pub Behind : Bytes → Bytes → Type 0
Behind tail args = (blanks : Bytes) × (tail ≡ blanks ++ args) × All IsBlank blanks × Unblank args

-- A value alone, or a value, one space, and the arguments.
abbrev pub Joined : Bytes → Bytes → Bytes → Type 0
Joined value [] t = t ≡ value
Joined value (c ∷ args) t = t ≡ value ++ (b' ' ∷ c ∷ args)

-- The first word of the line is an alias whose value starts with another word (the code looks at 511
-- bytes), and the line becomes the value with the line's arguments.
abbrev pub Replaced : List Alias → Bytes → Bytes → Type 0
Replaced table s t =
    (word : Bytes) × (tail : Bytes) × (args : Bytes) × (value : Bytes) × Begins s word tail
    × Behind tail args
    × (find_alias word table ≡ some value)
    × ((head : Bytes) × (after : Bytes) × Begins (take 511 value) head after
        × (same_name head word ≡ false))
    × Joined value args t

-- The first word of the line is no alias, or its value starts with that same word.
abbrev pub Stuck : List Alias → Bytes → Type 0
Stuck table s =
    (word : Bytes) × (tail : Bytes) × Begins s word tail
    × ((find_alias word table ≡ none)
        ⊎ ((value : Bytes) × (find_alias word table ≡ some value)
            × ((head : Bytes) × (after : Bytes) × Begins (take 511 value) head after
                × (same_name head word ≡ true))))

pub data Replacements (table : List Alias) : ℕ → Bytes → Bytes → Type 0 where
  unchanged : {s : Bytes} → Replacements table zero s s
  replaced :
      {n : ℕ} {s t u : Bytes}
      → Replaced table s t
      → Replacements table n t u
      → Replacements table (suc n) s u

split_word-Begins : (s : Bytes) → Begins s (split_word s).0 (split_word s).1
unfolding split_word
split_word-Begins [] = (refl, tt, tt)
split_word-Begins (c ∷ cs) = elim (Bool-cases (is_space c)) [
  | inl space ↦ rw space (refl, tt, ground (arith, space))
  | inr other ↦
      let (e, solid, end) = split_word-Begins cs in
      rw other (ap (◌∷◌ c) e, ((λ b. ground (arith, b, other)), solid), end)
]

skip_spaces-Behind : (s : Bytes) → Behind s (skip_spaces s)
unfolding skip_spaces
skip_spaces-Behind [] = ([], refl, tt, tt)
skip_spaces-Behind (c ∷ cs) = elim (Bool-cases (is_space c)) [
  | inl space ↦
      let (blanks, e, all, head) = skip_spaces-Behind cs in
      rw space (c ∷ blanks, ap (◌∷◌ c) e, (ground (arith, space), all), head)
  | inr other ↦ rw other ([], refl, tt, λ b. ground (arith, b, other))
]

arguments-Behind : (tail : Bytes) → Ended tail → Behind tail (arguments tail)
arguments-Behind [] h = ([], refl, tt, tt)
arguments-Behind (c ∷ cs) h =
    let (blanks, e, all, head) = skip_spaces-Behind cs in (c ∷ blanks, ap (◌∷◌ c) e, (h, all), head)

joined-Joined : (value args t : Bytes) → joined value args ≡ t → Joined value args t
joined-Joined value [] t e = sym e
joined-Joined value (c ∷ args) t e = sym e

substitute-Replaced :
    (table : List Alias) (s t : Bytes) (o : Option Bytes)
    → find_alias (first_word s) table ≡ o
    → substitute s o ≡ some t
    → Replaced table s t
substitute-Replaced table s t none h e = ground arith
substitute-Replaced table s t (some value) h e =
    let begins = split_word-Begins s in
    let differs : names_itself value (first_word s) ≡ false = ground arith in
    let whole : joined value (rest_of s) ≡ t = ground arith in
    (
      first_word s,
      (split_word s).1,
      rest_of s,
      value,
      begins,
      arguments-Behind (split_word s).1 begins.2,
      h,
      (
        first_word (take 511 value),
        (split_word (take 511 value)).1,
        split_word-Begins (take 511 value),
        differs,
      ),
      joined-Joined value (rest_of s) t whole,
    )

substitute-Stuck :
    (table : List Alias) (s : Bytes) (o : Option Bytes)
    → find_alias (first_word s) table ≡ o
    → substitute s o ≡ none
    → Stuck table s
substitute-Stuck table s none h e = (first_word s, (split_word s).1, split_word-Begins s, inl h)
substitute-Stuck table s (some value) h e =
    let same : names_itself value (first_word s) ≡ true = ground arith in
    (
      first_word s,
      (split_word s).1,
      split_word-Begins s,
      inr (
        value,
        h,
        (
          first_word (take 511 value),
          (split_word (take 511 value)).1,
          split_word-Begins (take 511 value),
          same,
        ),
      ),
    )

Expands-Replacements :
    {table : List Alias} {n : ℕ} {s r : Bytes} → Expands table n s r → Replacements table n s r
unfolding expand_once
Expands-Replacements done = unchanged
Expands-Replacements {table} (more {s = s} {t = t} go later) =
    replaced (substitute-Replaced table s t (find_alias (first_word s) table) refl go)
      (Expands-Replacements later)

-- A line that is not empty is expanded by at most ten replacements, one after the other. Each takes the
-- line's first word, which is an alias, and gives the alias's value, followed by one space and the
-- line's arguments if it has any; and the value starts with a word other than the alias. Fewer than
-- ten are made only when the first word of the result is no alias, or one whose value starts with its
-- own name.
pub expand_aliases-Replacements :
    (table : List Alias) (s : Bytes)
    → s ≢ []
    → (k : ℕ) × (k ≤ 10)
      × Replacements table k s (expand_aliases table s)
      × (Stuck table (expand_aliases table s) ⊎ (k ≡ 10))
unfolding expand_once
expand_aliases-Replacements table s h =
    let (k, steps, (few, end)) = expand_aliases-Ends table s h in
    let r = expand_aliases table s in
    (
      k,
      few,
      Expands-Replacements steps,
      elim end [
        | inl stop ↦ inl (substitute-Stuck table r (find_alias (first_word r) table) refl stop)
        | inr all ↦ inr all
      ],
    )
