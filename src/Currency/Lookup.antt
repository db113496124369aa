-- ===== src/Currency/Lookup.antt =====
-- What `currency_lookup` finds.
use las_shell.Prelude.{
  ℕ, ◌<◌, ◌≡◌, refl, ap, ap₂, Bytes, length, true, false, none, some, Option, Bytes, List, [], ◌∷◌,
  map, leb, if◌then◌else◌, arith,
}
use las_shell.CString.Libc.{toupper, map-toupper_idem, length-map-toupper}
use las_shell.Registry.Sort.{find_key, Unique, qsort_by}
use las_shell.Registry.Search.{binary_search, binary_search-qsort_by}
use las_shell.Currency.Table.{Currency, State, code_of, currency_lookup, currency_is_valid}

-- A lookup does not depend on the case of the code's letters.
pub currency_lookup-toupper :
    (s : State) (code : Bytes) → currency_lookup s (map toupper code) ≡ currency_lookup s code
unfolding currency_lookup
currency_lookup-toupper s [] = refl
currency_lookup-toupper s (c ∷ cs) =
    ap₂
      (λ (n : ℕ) (k : Bytes).
        if s.loaded then (if leb 8 n then none else binary_search code_of s.table k) else none)
      (length-map-toupper (c ∷ cs)) (map-toupper_idem (c ∷ cs))

-- In a table that was sorted from entries with distinct codes, a lookup of a code of one to seven
-- bytes returns the entry with the code in upper case that a scan of the unsorted entries finds, and
-- NULL where there is none.
pub currency_lookup-find_key :
    (entries : List Currency) (c : ℕ) (cs : Bytes)
    → Unique code_of entries
    → length (c ∷ cs) < 8
    → currency_lookup (record { table = qsort_by code_of entries; loaded = true }) (c ∷ cs)
      ≡ find_key code_of (map toupper (c ∷ cs)) entries
unfolding currency_lookup
currency_lookup-find_key entries c cs u l =
    let short : leb 8 (length (c ∷ cs)) ≡ false = ground arith in
    rw short (binary_search-qsort_by code_of entries (map toupper (c ∷ cs)) u)

pub currency_is_valid-toupper :
    (s : State) (code : Bytes) → currency_is_valid s (map toupper code) ≡ currency_is_valid s code
unfolding currency_is_valid
currency_is_valid-toupper s code =
    ap {A = Option Currency} (λ o. elim o [ none ↦ false | some c ↦ true ])
      (currency_lookup-toupper s code)
