-- ===== src/Operators/Backtest/Shape.antt =====
-- `parse_backtest_date`: what it accepts and what it gives.
use las_shell.Prelude.{
  ℕ, ◌-◌, ◌≤◌, ◌≡◌, refl, Bytes, codes, length, take, drop, Bool, true, false, not, ◌&&◌, Option,
  none, some, [], ◌∷◌, ◌++◌, ◌==◌, arith, subst, if_elim, Bool-cases, inl, inr, ◌⊎◌,
}
use las_shell.CString.Libc.{strchr}
use las_shell.Operators.Backtest.{
  all_digits, is_date_text, years, dates, date_range, at_separator, parse_backtest_date,
}

abbrev pub IsDigit : ℕ → Type 0
IsDigit c = (b'0' ≤ c) × (c ≤ b'9')

-- `YYYY-MM-DD`, byte for byte.
pub data IsDay : Bytes → Type 0 where
  day :
      {y₁ y₂ y₃ y₄ m₁ m₂ d₁ d₂ : ℕ}
      → IsDigit y₁ × IsDigit y₂ × IsDigit y₃ × IsDigit y₄
      → IsDigit m₁ × IsDigit m₂
      → IsDigit d₁ × IsDigit d₂
      → IsDay (y₁ ∷ y₂ ∷ y₃ ∷ y₄ ∷ b'-' ∷ m₁ ∷ m₂ ∷ b'-' ∷ d₁ ∷ d₂ ∷ [])

-- Ten bytes that the code accepts as a day.
abbrev pub IsDateText : Bytes → Type 0
IsDateText s = (length s ≡ 10) × (is_date_text s ≡ true)

-- A year of four digits.
abbrev pub IsYear : Bytes → Type 0
IsYear y = (length y ≡ 4) × (all_digits y ≡ true)

IsDateText-year :
    (y : Bytes) → IsYear y → IsDateText (y ++ codes "-01-01") × IsDateText (y ++ codes "-12-31")
unfolding is_date_text all_digits
IsDateText-year [] (e, h) = absurd (omega (arith, e))
IsDateText-year (a ∷ []) (e, h) = absurd (omega (arith, e))
IsDateText-year (a ∷ b ∷ []) (e, h) = absurd (omega (arith, e))
IsDateText-year (a ∷ b ∷ c ∷ []) (e, h) = absurd (omega (arith, e))
IsDateText-year (a ∷ b ∷ c ∷ d ∷ []) (e, h) = ((refl, ground (arith, h)), (refl, ground (arith, h)))
IsDateText-year (a ∷ b ∷ c ∷ d ∷ x ∷ y) (e, h) = absurd (omega (arith, e))

abbrev Both : Option (Bytes × Bytes) → Type 0
Both none = Unit
Both (some (first, last)) = IsDateText first × IsDateText last

years-Both : (left right : Bytes) → length left ≡ 4 → Both (years left right)
years-Both left right e =
    given (Bool-cases (all_digits left && length right == 4 && all_digits right))
  where
    given :
        ((all_digits left && length right == 4 && all_digits right) ≡ true)
          ⊎ ((all_digits left && length right == 4 && all_digits right) ≡ false)
        → Both (years left right)
    given (inl ok) = rw ok (
      (IsDateText-year left (e, ground arith)).0,
      (IsDateText-year right (ground arith, ground arith)).1,
    )
    given (inr bad) = rw bad tt

dates-Both : (left right : Bytes) → length left ≡ 10 → Both (dates left right)
dates-Both left right e =
    given (Bool-cases (length right == 10 && is_date_text left && is_date_text right))
  where
    given :
        ((length right == 10 && is_date_text left && is_date_text right) ≡ true)
          ⊎ ((length right == 10 && is_date_text left && is_date_text right) ≡ false)
        → Both (dates left right)
    given (inl ok) = rw ok ((e, ground arith), (ground arith, ground arith))
    given (inr bad) = rw bad tt

date_range-Both : (left right : Bytes) → Both (date_range left right)
date_range-Both left right =
    if_elim Both (length left == 4) _ _ (λ e. years-Both left right (ground (arith, e)))
      (λ e.
        if_elim Both (length left == 10) _ _ (λ e. dates-Both left right (ground (arith, e)))
          (λ e. tt))

IsDateText-IsDay : (s : Bytes) → IsDateText s → IsDay s
unfolding is_date_text all_digits
IsDateText-IsDay [] (l, k) = absurd (omega (arith, l))
IsDateText-IsDay (a ∷ []) (l, k) = absurd (omega (arith, l))
IsDateText-IsDay (a ∷ b ∷ []) (l, k) = absurd (omega (arith, l))
IsDateText-IsDay (a ∷ b ∷ c ∷ []) (l, k) = absurd (omega (arith, l))
IsDateText-IsDay (a ∷ b ∷ c ∷ d ∷ []) (l, k) = absurd (omega (arith, l))
IsDateText-IsDay (a ∷ b ∷ c ∷ d ∷ e ∷ []) (l, k) = absurd (omega (arith, l))
IsDateText-IsDay (a ∷ b ∷ c ∷ d ∷ e ∷ f ∷ []) (l, k) = absurd (omega (arith, l))
IsDateText-IsDay (a ∷ b ∷ c ∷ d ∷ e ∷ f ∷ g ∷ []) (l, k) = absurd (omega (arith, l))
IsDateText-IsDay (a ∷ b ∷ c ∷ d ∷ e ∷ f ∷ g ∷ h ∷ []) (l, k) = absurd (omega (arith, l))
IsDateText-IsDay (a ∷ b ∷ c ∷ d ∷ e ∷ f ∷ g ∷ h ∷ i ∷ []) (l, k) = absurd (omega (arith, l))
IsDateText-IsDay (a ∷ b ∷ c ∷ d ∷ e ∷ f ∷ g ∷ h ∷ i ∷ j ∷ []) (l, k) =
    let first : e ≡ b'-' = ground (arith, k) in
    let second : h ≡ b'-' = ground (arith, k) in
    rw (first, second) (day (ground (arith, k)) (ground (arith, k)) (ground (arith, k)))
IsDateText-IsDay (a ∷ b ∷ c ∷ d ∷ e ∷ f ∷ g ∷ h ∷ i ∷ j ∷ x ∷ y) (l, k) = absurd (omega (arith, l))

days-IsDay :
    (o : Option (Bytes × Bytes)) (first last : Bytes)
    → o ≡ some (first, last)
    → Both o
    → IsDay first × IsDay last
days-IsDay o first last e both =
    let (p, q) = subst Both e both in (IsDateText-IsDay first p, IsDateText-IsDay last q)

-- Whatever the text, a range that is accepted has a first and a last day of the form `YYYY-MM-DD`, with
-- digits from 0 to 9 for the letters.
pub parse_backtest_date-IsDay :
    (s first last : Bytes)
    → parse_backtest_date (some s) ≡ some (first, last)
    → IsDay first × IsDay last
unfolding parse_backtest_date
parse_backtest_date-IsDay s first last h =
    days-IsDay (at_separator s (strchr s b':')) first last h (any (strchr s b':'))
  where
    any : (sep : Option Bytes) → Both (at_separator s sep)
    any none = tt
    any (some sep) = date_range-Both (take (length s - length sep) s) (drop 1 sep)

-- A range as it is written: two years, or two days.
pub data Range : Type 0 where
  of_years of_days : Bytes → Bytes → Range

abbrev pub range_text : Range → Bytes
range_text (of_years a b) = a ++ (b':' ∷ b)
range_text (of_days a b) = a ++ (b':' ∷ b)

abbrev pub range_days : Range → Bytes × Bytes
range_days (of_years a b) = (a ++ codes "-01-01", b ++ codes "-12-31")
range_days (of_days a b) = (a, b)

abbrev pub IsRange : Range → Type 0
IsRange (of_years a b) = IsYear a × IsYear b
IsRange (of_days a b) = IsDateText a × IsDateText b

abbrev not_colon : ℕ → Bool
not_colon c = not (c == b':')
