-- ===== src/Registry/Search.antt =====
-- The binary search of `find_holiday` (src/calendar.c) and `currency_lookup` (src/currency.c), which
-- are the same loop over different tables: `hi` here is one more than the source's `hi`.
use las_shell.Prelude.{
  ℕ, zero, suc, ◌+◌, ◌-◌, ◌/◌, ◌<◌, ◌≤◌, ◌≡◌, refl, ap, ◌∙◌, sym, subst, Bytes, length, get_elem?,
  true, false, Option, none, some, List, [], ◌∷◌, if◌then◌else◌, ltb, arith, All, Ordering,
  Bool-cases, inl, inr,
}
use native.Mathlib.Decide.{dec_lt}
use las_shell.CString.Libc.{
  strcmp, str_eq, is_eq, StrLt, StrLt-trans, strcmp_flip, str_eq_iff, eq_of_strcmp, strcmp_refl,
}
use las_shell.Registry.Sort.{Sorted, Unique, find_key, qsort_by, qsort_by-Sorted, find_key-qsort_by}

module _ {ℓ} {A : Type ℓ} (key : A → Bytes) where
  abbrev pick : Ordering → A → Option A → Option A → Option A
  pick Ordering.eq e left right = some e
  pick Ordering.lt e left right = right
  pick Ordering.gt e left right = left

  abbrev probe : Option A → Bytes → Option A → Option A → Option A
  probe none k left right = none
  probe (some e) k left right = pick (strcmp (key e) k) e left right

  -- The loop, on fuel. A read outside the table would be a fault; `probe` then gives `none`.
  unfoldable pub search_between : ℕ → List A → Bytes → ℕ → ℕ → Option A
  search_between zero xs k lo hi = none
  search_between (suc fuel) xs k lo hi =
      let mid = lo + (hi - 1 - lo) / 2 in
      let left = search_between fuel xs k lo mid in
      let right = search_between fuel xs k (mid + 1) hi in
      if ltb lo hi then probe (get_elem? xs mid) k left right else none

  unfoldable pub binary_search : List A → Bytes → Option A
  unfolding search_between
  binary_search xs k = search_between (suc (length xs)) xs k 0 (length xs)

module _ {ℓ} {A : Type ℓ} where
  get_elem?-in : (xs : List A) (i : ℕ) → i < length xs → (e : A) × (get_elem? xs i ≡ some e)
  get_elem?-in [] i h = absurd (omega arith)
  get_elem?-in (x ∷ xs) zero h = (x, refl)
  get_elem?-in (x ∷ xs) (suc i) h = get_elem?-in xs i (omega arith)

  get_elem?-All :
      (P : A → Type 0) (xs : List A) (i : ℕ) (e : A) → All P xs → get_elem? xs i ≡ some e → P e
  get_elem?-All P [] i e h g = ground arith
  get_elem?-All P (x ∷ xs) zero e h g = subst P (some_eq g) h.0
    where
      some_eq : some x ≡ some e → x ≡ e
      some_eq p = cc
  get_elem?-All P (x ∷ xs) (suc i) e h g = get_elem?-All P xs i e h.1 g

module _ {ℓ} {A : Type ℓ} (key : A → Bytes) where
  Sorted-index :
      (xs : List A) (i j : ℕ) (a b : A)
      → Sorted key xs
      → i < j
      → get_elem? xs i ≡ some a
      → get_elem? xs j ≡ some b
      → StrLt (key a) (key b)
  Sorted-index [] i j a b h l p q = ground arith
  Sorted-index (x ∷ xs) zero zero a b h l p q = absurd (omega arith)
  Sorted-index (x ∷ xs) (suc i) zero a b h l p q = absurd (omega arith)
  Sorted-index (x ∷ xs) zero (suc j) a b h l p q =
      let same : x ≡ a = cc in rw (← same) (get_elem?-All (λ y. StrLt (key x) (key y)) xs j b h.0 q)
  Sorted-index (x ∷ xs) (suc i) (suc j) a b h l p q = Sorted-index xs i j a b h.1 (omega arith) p q

  -- Every entry left of `lo` is below the key, and every entry from `hi` on above it.
  abbrev Window : List A → Bytes → ℕ → ℕ → Type ℓ
  Window xs k lo hi =
      (i : ℕ) (e : A)
      → get_elem? xs i ≡ some e
      → (i < lo → StrLt (key e) k) × (hi ≤ i → StrLt k (key e))

  abbrev Correct : List A → Bytes → Option A → Type ℓ
  Correct xs k none = (i : ℕ) (e : A) → get_elem? xs i ≡ some e → str_eq (key e) k ≡ false
  Correct xs k (some e) = (i : ℕ) × (get_elem? xs i ≡ some e) × (key e ≡ k)

  lt-ne : (a k : Bytes) → StrLt a k → str_eq a k ≡ false
  unfolding str_eq
  lt-ne a k h = ap is_eq h

  gt-ne : (a k : Bytes) → StrLt k a → str_eq a k ≡ false
  gt-ne a k h = elim (Bool-cases (str_eq a k)) [
    | inl same ↦ let e = (str_eq_iff a k).0 same in absurd (irrefl (rw e at h))
    | inr other ↦ other
  ]
    where
      irrefl : StrLt k k → ⊥
      irrefl p = ground (arith, strcmp_refl k)

  -- The sides of the middle entry, by how it compares.
  Window-right :
      (xs : List A) (k : Bytes) (lo hi mid : ℕ) (m : A)
      → Sorted key xs
      → Window xs k lo hi
      → get_elem? xs mid ≡ some m
      → StrLt (key m) k
      → Window xs k (suc mid) hi
  Window-right xs k lo hi mid m s w g below i e h = ((λ l. left i e h l), (w i e h).1)
    where
      left : (i : ℕ) (e : A) → get_elem? xs i ≡ some e → i < suc mid → StrLt (key e) k
      left i e h l = elim (dec_lt i mid) [
        | yes p ↦ StrLt-trans (key e) (key m) k (Sorted-index xs i mid e m s p h g) below
        | no p ↦
            let at : i ≡ mid = omega arith in
            let same : some e ≡ some m = sym h ∙ ap (get_elem? xs) at ∙ g in
            let e_m : e ≡ m = cc in rw e_m below
      ]

  Window-left :
      (xs : List A) (k : Bytes) (lo hi mid : ℕ) (m : A)
      → Sorted key xs
      → Window xs k lo hi
      → get_elem? xs mid ≡ some m
      → StrLt k (key m)
      → Window xs k lo mid
  Window-left xs k lo hi mid m s w g above i e h = ((w i e h).0, (λ l. right i e h l))
    where
      right : (i : ℕ) (e : A) → get_elem? xs i ≡ some e → mid ≤ i → StrLt k (key e)
      right i e h l = elim (dec_lt mid i) [
        | yes p ↦ StrLt-trans k (key m) (key e) above (Sorted-index xs mid i m e s p g h)
        | no p ↦
            let at : i ≡ mid = omega arith in
            let same : some e ≡ some m = sym h ∙ ap (get_elem? xs) at ∙ g in
            let e_m : e ≡ m = cc in rw e_m above
      ]

  pick-Correct :
      (o : Ordering) (xs : List A) (k : Bytes) (mid : ℕ) (m : A) (left right : Option A)
      → get_elem? xs mid ≡ some m
      → strcmp (key m) k ≡ o
      → (StrLt (key m) k → Correct xs k right)
      → (StrLt k (key m) → Correct xs k left)
      → Correct xs k (pick key o m left right)
  pick-Correct Ordering.eq xs k mid m left right g c r l = (mid, g, eq_of_strcmp (key m) k c)
  pick-Correct Ordering.lt xs k mid m left right g c r l = r c
  pick-Correct Ordering.gt xs k mid m left right g c r l = l (strcmp_flip (key m) k c)

  Correct-empty :
      (xs : List A) (k : Bytes) (lo hi : ℕ) → hi ≤ lo → Window xs k lo hi → Correct xs k none
  Correct-empty xs k lo hi h w i e g = elim (dec_lt i lo) [
    | yes p ↦ lt-ne (key e) k ((w i e g).0 p)
    | no p ↦ gt-ne (key e) k ((w i e g).1 (omega arith))
  ]

  search-Correct :
      (fuel : ℕ) (xs : List A) (k : Bytes) (lo hi : ℕ)
      → Sorted key xs
      → hi < fuel + lo
      → hi ≤ length xs
      → Window xs k lo hi
      → Correct xs k (search_between key fuel xs k lo hi)
  unfolding search_between
  search-Correct zero xs k lo hi s f b w = Correct-empty xs k lo hi (omega arith) w
  search-Correct (suc fuel) xs k lo hi s f b w = elim (dec_lt lo hi) [
    | no p ↦
        let stop : ltb lo hi ≡ false = ground arith in
        rw (stop, Correct) (Correct-empty xs k lo hi (omega arith) w)
    | yes p ↦
        let mid = lo + (hi - 1 - lo) / 2 in
        let go : ltb lo hi ≡ true = ground arith in
        let (m, g) = get_elem?-in xs mid (omega arith) in
        let one : mid + 1 ≡ suc mid = omega arith in
        rw (go, g, one)
          (pick-Correct (strcmp (key m) k) xs k mid m _ _ g refl
            (λ c.
              search-Correct fuel xs k (suc mid) hi s (omega arith) b
                (Window-right xs k lo hi mid m s w g c))
            (λ c.
              search-Correct fuel xs k lo mid s (omega arith) (omega arith)
                (Window-left xs k lo hi mid m s w g c)))
  ]

  find_key-none : (xs : List A) (k : Bytes) → Correct xs k none → find_key key k xs ≡ none
  unfolding find_key
  find_key-none [] k h = refl
  find_key-none (x ∷ xs) k h = rw (h zero x refl) (find_key-none xs k (λ i e g. h (suc i) e g))

  find_key-index :
      (xs : List A) (k : Bytes) (i : ℕ) (e : A)
      → Sorted key xs
      → get_elem? xs i ≡ some e
      → key e ≡ k
      → find_key key k xs ≡ some e
  unfolding find_key
  find_key-index [] k i e s g q = ground arith
  find_key-index (x ∷ xs) k zero e s g q =
      let same : x ≡ e = cc in rw (same, (str_eq_iff (key e) k).1 q) refl
  find_key-index (x ∷ xs) k (suc i) e s g q =
      let below = get_elem?-All (λ y. StrLt (key x) (key y)) xs i e s.0 g in
      rw (lt-ne (key x) k (rw q at below)) (find_key-index xs k i e s.1 g q)

  -- In a table with strictly ascending keys the binary search returns what a scan of the whole table
  -- returns, found or not.
  pub binary_search-find_key :
      (xs : List A) (k : Bytes) → Sorted key xs → binary_search key xs k ≡ find_key key k xs
  unfolding binary_search
  binary_search-find_key xs k s =
      agree (binary_search key xs k)
        (search-Correct (suc (length xs)) xs k 0 (length xs) s (omega arith) (omega arith) start)
    where
      start : Window xs k 0 (length xs)
      start i e g = ((λ l. absurd (omega arith)), (λ l. absurd (outside xs i e l g)))
        where
          outside : (ys : List A) (j : ℕ) (d : A) → length ys ≤ j → get_elem? ys j ≡ some d → ⊥
          outside [] j d l p = cc
          outside (y ∷ ys) zero d l p = absurd (omega arith)
          outside (y ∷ ys) (suc j) d l p = outside ys j d (omega arith) p

      agree : (r : Option A) → Correct xs k r → r ≡ find_key key k xs
      agree none h = sym (find_key-none xs k h)
      agree (some e) (i, g, q) = sym (find_key-index xs k i e s g q)

  -- Sorting a table with distinct keys and then searching it finds what a scan of the table in its
  -- original order finds.
  pub binary_search-qsort_by :
      (xs : List A) (k : Bytes)
      → Unique key xs
      → binary_search key (qsort_by key xs) k ≡ find_key key k xs
  binary_search-qsort_by xs k u =
      binary_search-find_key (qsort_by key xs) k (qsort_by-Sorted key xs u)
      ∙ find_key-qsort_by key k xs u
