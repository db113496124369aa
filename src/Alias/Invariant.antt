-- ===== src/Alias/Invariant.antt =====
-- The table stays a partial function from names to values: what a lookup finds after each operation.
use las_shell.Prelude.{
  ◌≤◌, ◌≡◌, refl, Bytes, IsText, length, true, false, none, some, List, [], ◌∷◌, ◌++◌, arith,
  if◌then◌else◌, inl, inr, Option-cases, All, Ordering,
}
use las_shell.Prelude.Int.{ℤ, pos, negsuc, is_zero}
use las_shell.CString.Libc.{strcmp, eq_of_strcmp}
use las_shell.CString.Compare.{my_strcmp, my_strcmp-strcmp, HasSign}
use las_shell.Alias.Table.{Alias, max_aliases, same_name, find_alias, replace}

is_zero_of_sign : (z : ℤ) (o : Ordering) → HasSign z o → is_zero z ≡ true → o ≡ Ordering.eq
is_zero_of_sign z Ordering.eq h e = refl
is_zero_of_sign (pos n) Ordering.lt h e = ground arith
is_zero_of_sign (negsuc n) Ordering.lt h e = ground arith
is_zero_of_sign (pos n) Ordering.gt h e = ground arith
is_zero_of_sign (negsuc n) Ordering.gt h e = ground arith

pub same_name→eq : (a b : Bytes) → IsText a → IsText b → same_name a b ≡ true → a ≡ b
unfolding same_name
same_name→eq a b h k e =
    eq_of_strcmp a b (is_zero_of_sign (my_strcmp a b) (strcmp a b) (my_strcmp-strcmp a b h k) e)

pub same_name_refl : (a : Bytes) → same_name a a ≡ true
unfolding same_name my_strcmp
same_name_refl [] = refl
same_name_refl (x ∷ xs) = ground (arith, same_name_refl xs)

pub same_name_sym : (a b : Bytes) → same_name a b ≡ true → same_name b a ≡ true
unfolding same_name my_strcmp
same_name_sym [] [] h = refl
same_name_sym [] (y ∷ ys) h = ground arith
same_name_sym (x ∷ xs) [] h = ground arith
same_name_sym (x ∷ xs) (y ∷ ys) h = ground (arith, same_name_sym xs ys)

abbrev pub names_of : List Alias → List Bytes
names_of [] = []
names_of (a ∷ rest) = a.name ∷ names_of rest

-- None of the names is this one.
abbrev pub Fresh : Bytes → List Bytes → Type 0
Fresh name = All (λ n. same_name n name ≡ false)

abbrev pub Distinct : List Bytes → Type 0
Distinct [] = Unit
Distinct (n ∷ rest) = Fresh n rest × Distinct rest

-- Names are texts, and no two entries have one name; the array is not overrun.
pub record IsTable (table : List Alias) : Type 0 where
  pub texts : All IsText (names_of table)
  pub distinct : Distinct (names_of table)
  pub bounded : length table ≤ max_aliases

pub find_alias-Fresh :
    (name : Bytes) (t : List Alias) → Fresh name (names_of t) → find_alias name t ≡ none
unfolding find_alias
find_alias-Fresh name [] h = refl
find_alias-Fresh name (a ∷ rest) h = rw h.0 (find_alias-Fresh name rest h.1)

pub replace-none :
    (name value : Bytes) (t : List Alias) → replace name value t ≡ none → Fresh name (names_of t)
unfolding replace
replace-none name value [] h = tt
replace-none name value (a ∷ rest) h = ground (arith, replace-none name value rest)

find_alias-replace_cons :
    (name value other : Bytes) (a : Alias) (rest t' : List Alias)
    → IsText name
    → IsText other
    → IsText a.name
    → replace name value (a ∷ rest) ≡ some t'
    → ((t : List Alias)
        → replace name value rest ≡ some t
        → find_alias other t ≡ (if same_name name other then some value else find_alias other rest))
    → find_alias other t'
      ≡ (if same_name name other then some value else find_alias other (a ∷ rest))
unfolding replace find_alias
find_alias-replace_cons name value other a rest t' h k x e ih =
    elim (Option-cases (replace name value rest)) [
      | inl miss ↦ ground (
        arith,
        same_name→eq a.name name x h,
        same_name→eq a.name other x k,
        same_name→eq name other h k,
        same_name_refl name,
      )
      | inr (t, found) ↦ ground (
        arith,
        ih t found,
        same_name→eq a.name name x h,
        same_name→eq a.name other x k,
        same_name→eq name other h k,
        same_name_refl name,
      )
    ]

pub find_alias-replace :
    (name value other : Bytes) (t t' : List Alias)
    → IsText name
    → IsText other
    → All IsText (names_of t)
    → replace name value t ≡ some t'
    → find_alias other t' ≡ (if same_name name other then some value else find_alias other t)
unfolding replace
find_alias-replace name value other [] t' h k x e = ground arith
find_alias-replace name value other (a ∷ rest) t' h k x e =
    find_alias-replace_cons name value other a rest t' h k x.0 e
      (λ t f. find_alias-replace name value other rest t h k x.1 f)

pub find_alias-snoc :
    (name value other : Bytes) (t : List Alias)
    → IsText name
    → IsText other
    → Fresh name (names_of t)
    → find_alias other (t ++ (record { name = name; value = value } ∷ []))
      ≡ (if same_name name other then some value else find_alias other t)
unfolding find_alias
find_alias-snoc name value other [] h k f = refl
find_alias-snoc name value other (a ∷ rest) h k f =
    ground (arith, find_alias-snoc name value other rest h k f.1, same_name→eq name other h k, f.0)

-- `replace` keeps the names, in their order.
pub names_of-replace :
    (name value : Bytes) (t t' : List Alias)
    → replace name value t ≡ some t'
    → (names_of t' ≡ names_of t) × (length t' ≡ length t)
unfolding replace
names_of-replace name value [] t' e = ground arith
names_of-replace name value (a ∷ rest) t' e = elim (Option-cases (replace name value rest)) [
  | inl miss ↦ (ground arith, ground arith)
  | inr (t, found) ↦
      let ih = names_of-replace name value rest t found in (ground (arith, ih), ground (arith, ih))
]
