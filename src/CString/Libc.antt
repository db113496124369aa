-- ===== src/CString/Libc.antt =====
-- The C library's `strcmp` as the order of unsigned bytes that it documents. src/calendar.c and
-- src/currency.c sort and search by it.
use las_shell.Prelude.{
  ap, suc, zero, map, length, take, ◌++◌, not, Only, ==_refl, ℕ, ◌-◌, leb, ◌&&◌, Option, none, some,
  Ordering, ◌≡◌, refl, ◌↔◌, Bytes, Bool, true, false, [], ◌∷◌, arith, ltb, ◌==◌, if◌then◌else◌,
}

unfoldable pub strcmp : Bytes → Bytes → Ordering
strcmp [] [] = Ordering.eq
strcmp [] (y ∷ ys) = Ordering.lt
strcmp (x ∷ xs) [] = Ordering.gt
strcmp (x ∷ xs) (y ∷ ys) =
    if x == y then strcmp xs ys else if ltb x y then Ordering.lt else Ordering.gt

abbrev pub is_eq : Ordering → Bool
is_eq Ordering.eq = true
is_eq _ = false

abbrev pub is_lt : Ordering → Bool
is_lt Ordering.lt = true
is_lt _ = false

-- `strcmp(a, b) == 0` and `strcmp(a, b) < 0`.
unfoldable pub str_eq : Bytes → Bytes → Bool
unfolding strcmp
str_eq a b = is_eq (strcmp a b)

abbrev pub StrLt : Bytes → Bytes → Type 0
StrLt a b = strcmp a b ≡ Ordering.lt

pub strcmp_refl : (a : Bytes) → strcmp a a ≡ Ordering.eq
unfolding strcmp
strcmp_refl [] = refl
strcmp_refl (x ∷ xs) = ground (arith, strcmp_refl xs)

pub eq_of_strcmp : (a b : Bytes) → strcmp a b ≡ Ordering.eq → a ≡ b
unfolding strcmp
eq_of_strcmp [] [] h = refl
eq_of_strcmp (x ∷ xs) (y ∷ ys) h = ground (arith, eq_of_strcmp xs ys)
eq_of_strcmp _ _ h = ground arith

pub StrLt-trans : (a b c : Bytes) → StrLt a b → StrLt b c → StrLt a c
unfolding strcmp
StrLt-trans [] (y ∷ ys) (z ∷ zs) h k = refl
StrLt-trans (x ∷ xs) (y ∷ ys) (z ∷ zs) h k = ground (arith, StrLt-trans xs ys zs)
StrLt-trans _ _ _ h k = ground arith

pub strcmp_flip : (a b : Bytes) → strcmp a b ≡ Ordering.gt → StrLt b a
unfolding strcmp
strcmp_flip [] [] h = ground arith
strcmp_flip (x ∷ xs) [] h = refl
strcmp_flip (x ∷ xs) (y ∷ ys) h = ground (arith, strcmp_flip xs ys)
strcmp_flip [] (y ∷ ys) h = ground arith

pub str_eq_iff : (a b : Bytes) → (str_eq a b ≡ true) ↔ (a ≡ b)
unfolding str_eq
str_eq_iff a b = (λ h. eq_of_strcmp a b (to_eq (strcmp a b) h), λ e. from_eq e)
  where
    to_eq : (o : Ordering) → is_eq o ≡ true → o ≡ Ordering.eq
    to_eq Ordering.eq h = refl
    to_eq Ordering.lt h = ground arith
    to_eq Ordering.gt h = ground arith

    from_eq : a ≡ b → is_eq (strcmp a b) ≡ true
    from_eq e = rw (e, strcmp_refl b)

-- The C library's `toupper` in the C locale, and `strchr`.
unfoldable pub toupper : ℕ → ℕ
toupper c = if leb b'a' c && leb c b'z' then c - 32 else c

unfoldable pub strchr : Bytes → ℕ → Option Bytes
strchr [] c = none
strchr (x ∷ xs) c = if x == c then some (x ∷ xs) else strchr xs c

-- A byte is found at its first place, with all that follows, and nowhere in a text without it.
pub strchr-first :
    (pre : Bytes) (c : ℕ) (rest : Bytes)
    → Only (λ x. not (x == c)) pre
    → (strchr (pre ++ (c ∷ rest)) c ≡ some (c ∷ rest)) × (strchr pre c ≡ none)
unfolding strchr
strchr-first [] c rest h = (rw (==_refl c) refl, refl)
strchr-first (x ∷ xs) c rest h =
    let (found, missing) = strchr-first xs c rest h.1 in (ground (arith, h.0), ground (arith, h.0))

pub toupper_idem : (c : ℕ) → toupper (toupper c) ≡ toupper c
unfolding toupper
toupper_idem c = ground arith

pub length-map-toupper : (s : Bytes) → length (map toupper s) ≡ length s
length-map-toupper [] = refl
length-map-toupper (c ∷ cs) = ap suc (length-map-toupper cs)

pub map-toupper_idem : (s : Bytes) → map toupper (map toupper s) ≡ map toupper s
map-toupper_idem [] = refl
map-toupper_idem (c ∷ cs) = cc (toupper_idem c, map-toupper_idem cs)

pub take-map-toupper : (n : ℕ) (s : Bytes) → take n (map toupper s) ≡ map toupper (take n s)
take-map-toupper zero s = refl
take-map-toupper (suc n) [] = refl
take-map-toupper (suc n) (c ∷ cs) = ap (◌∷◌ (toupper c)) (take-map-toupper n cs)
