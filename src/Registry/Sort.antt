-- ===== src/Registry/Sort.antt =====
-- The C library's `qsort` with `strcmp` on a text key, as an insertion sort. The program's tables have
-- distinct keys or take the order of equal ones as it comes.
use las_shell.Prelude.{
  ◌≡◌, refl, ◌∙◌, Bytes, true, false, Option, none, some, List, [], ◌∷◌, if◌then◌else◌, arith, All,
  Ordering, Bool-cases, inl, inr,
}
use las_shell.CString.Libc.{
  strcmp, str_eq, is_lt, is_eq, StrLt, StrLt-trans, strcmp_flip, str_eq_iff,
}

module _ {ℓ} {A : Type ℓ} (key : A → Bytes) where
  unfoldable pub insert_by : A → List A → List A
  insert_by x [] = x ∷ []
  insert_by x (y ∷ ys) = if is_lt (strcmp (key y) (key x)) then y ∷ insert_by x ys else x ∷ y ∷ ys

  unfoldable pub qsort_by : List A → List A
  unfolding insert_by
  qsort_by [] = []
  qsort_by (x ∷ xs) = insert_by x (qsort_by xs)

  -- The first entry with the key, by a scan of the whole table.
  unfoldable pub find_key : Bytes → List A → Option A
  find_key k [] = none
  find_key k (x ∷ xs) = if str_eq (key x) k then some x else find_key k xs

  abbrev pub Sorted : List A → Type 0
  Sorted [] = Unit
  Sorted (x ∷ xs) = All (λ y. StrLt (key x) (key y)) xs × Sorted xs

  abbrev pub Fresh : Bytes → List A → Type 0
  Fresh k xs = All (λ y. str_eq (key y) k ≡ false) xs

  abbrev pub Unique : List A → Type 0
  Unique [] = Unit
  Unique (x ∷ xs) = Fresh (key x) xs × Unique xs

module _ {ℓ} {A : Type ℓ} (key : A → Bytes) where
  pub find_key-Fresh : (k : Bytes) (xs : List A) → Fresh key k xs → find_key key k xs ≡ none
  unfolding find_key
  find_key-Fresh k [] h = refl
  find_key-Fresh k (x ∷ xs) h = rw h.0 (find_key-Fresh k xs h.1)

  insert_by-All :
      (P : A → Type 0) (x : A) (xs : List A) → P x → All P xs → All P (insert_by key x xs)
  unfolding insert_by
  insert_by-All P x [] h k = (h, tt)
  insert_by-All P x (y ∷ ys) h k = elim (Bool-cases (is_lt (strcmp (key y) (key x)))) [
    | inl less ↦ rw less (k.0, insert_by-All P x ys h k.1)
    | inr more ↦ rw more (h, k)
  ]

  qsort_by-All : (P : A → Type 0) (xs : List A) → All P xs → All P (qsort_by key xs)
  unfolding qsort_by
  qsort_by-All P [] h = tt
  qsort_by-All P (x ∷ xs) h = insert_by-All P x (qsort_by key xs) h.0 (qsort_by-All P xs h.1)

  lt_of_not : (a b : Bytes) → str_eq a b ≡ false → is_lt (strcmp a b) ≡ false → StrLt b a
  unfolding str_eq
  lt_of_not a b ne nl = strcmp_flip a b (greater (strcmp a b) ne nl)
    where
      greater : (o : Ordering) → is_eq o ≡ false → is_lt o ≡ false → o ≡ Ordering.gt
      greater Ordering.gt h k = refl
      greater Ordering.lt h k = ground arith
      greater Ordering.eq h k = ground arith

  lt_of_is : (o : Ordering) → is_lt o ≡ true → o ≡ Ordering.lt
  lt_of_is Ordering.lt h = refl
  lt_of_is Ordering.gt h = ground arith
  lt_of_is Ordering.eq h = ground arith

  All-below :
      (a b : Bytes) (xs : List A)
      → StrLt a b
      → All (λ y. StrLt b (key y)) xs
      → All (λ y. StrLt a (key y)) xs
  All-below a b [] h k = tt
  All-below a b (x ∷ xs) h k = (StrLt-trans a b (key x) h k.0, All-below a b xs h k.1)

  insert_by-Sorted :
      (x : A) (xs : List A) → Sorted key xs → Fresh key (key x) xs → Sorted key (insert_by key x xs)
  unfolding insert_by
  insert_by-Sorted x [] h f = (tt, tt)
  insert_by-Sorted x (y ∷ ys) h f = elim (Bool-cases (is_lt (strcmp (key y) (key x)))) [
    | inl less ↦ rw less (
      insert_by-All (λ z. StrLt (key y) (key z)) x ys (lt_of_is (strcmp (key y) (key x)) less) h.0,
      insert_by-Sorted x ys h.1 f.1,
    )
    | inr more ↦
        let below = lt_of_not (key y) (key x) f.0 more in
        rw more ((below, All-below (key x) (key y) ys below h.0), h)
  ]

  -- Sorting a table with distinct keys puts the keys in strictly ascending order.
  pub qsort_by-Sorted : (xs : List A) → Unique key xs → Sorted key (qsort_by key xs)
  unfolding qsort_by
  qsort_by-Sorted [] u = tt
  qsort_by-Sorted (x ∷ xs) u =
      insert_by-Sorted x (qsort_by key xs) (qsort_by-Sorted xs u.1)
        (qsort_by-All (λ y. str_eq (key y) (key x) ≡ false) xs u.0)

  find_key-insert_by :
      (k : Bytes) (x : A) (xs : List A)
      → Fresh key (key x) xs
      → find_key key k (insert_by key x xs)
        ≡ (if str_eq (key x) k then some x else find_key key k xs)
  unfolding insert_by find_key
  find_key-insert_by k x [] f = refl
  find_key-insert_by k x (y ∷ ys) f = elim (Bool-cases (is_lt (strcmp (key y) (key x)))) [
    | inl less ↦
        rw (less, find_key)
          (ground (
            arith,
            find_key-insert_by k x ys f.1,
            f.0,
            str_eq_iff (key y) k,
            str_eq_iff (key x) k,
            str_eq_iff (key y) (key x),
          ))
    | inr more ↦ rw (more, find_key) refl
  ]

  -- ... and a scan finds the same entry under every key as before.
  pub find_key-qsort_by :
      (k : Bytes) (xs : List A)
      → Unique key xs
      → find_key key k (qsort_by key xs) ≡ find_key key k xs
  unfolding qsort_by find_key
  find_key-qsort_by k [] u = refl
  find_key-qsort_by k (x ∷ xs) u =
      find_key-insert_by k x (qsort_by key xs)
        (qsort_by-All (λ y. str_eq (key y) (key x) ≡ false) xs u.0)
      ∙ rw (find_key-qsort_by k xs u.1)
