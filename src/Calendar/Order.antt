-- ===== src/Calendar/Order.antt =====
-- Comparing formatted dates as texts is comparing the dates.
use las_shell.Prelude.{
  ℕ, ◌/◌, ◌%◌, ◌<◌, ◌≡◌, refl, ap, ◌∙◌, sym, Bytes, true, [], ◌∷◌, ◌++◌, ltb, ◌==◌, if◌then◌else◌,
  arith, Ordering, append-nil, append-nil,
}
use las_shell.CString.Libc.{strcmp}
use las_shell.TimeFormat.{two_digits, four_digits}
use las_shell.Calendar.Date.{Date, padded_four, padded_two, format_date}

-- The order of two numbers, or of what follows them where they are equal.
abbrev pub then_by : ℕ → ℕ → Ordering → Ordering
then_by a b rest = if a == b then rest else if ltb a b then Ordering.lt else Ordering.gt

strcmp-two_digits :
    (a b : ℕ) (s t : Bytes)
    → a < 100
    → b < 100
    → strcmp (two_digits a ++ s) (two_digits b ++ t) ≡ then_by a b (strcmp s t)
unfolding strcmp
strcmp-two_digits a b s t h k = ground arith

four_two : (y : ℕ) → four_digits y ≡ two_digits (y / 100) ++ two_digits (y % 100)
four_two y =
    let a : y / 1000 ≡ y / 100 / 10 = omega arith in
    let b : y / 100 % 10 ≡ y / 100 % 10 = refl in
    let c : y / 10 % 10 ≡ y % 100 / 10 = omega arith in
    let d : y % 10 ≡ y % 100 % 10 = omega arith in cc

then_by-parts :
    (a b : ℕ) (o : Ordering)
    → then_by (a / 100) (b / 100) (then_by (a % 100) (b % 100) o) ≡ then_by a b o
then_by-parts a b o = ground arith

strcmp-four_digits :
    (a b : ℕ) (s t : Bytes)
    → a < 10000
    → b < 10000
    → strcmp (four_digits a ++ s) (four_digits b ++ t) ≡ then_by a b (strcmp s t)
strcmp-four_digits a b s t h k =
    ap (λ u. strcmp (u ++ s) (four_digits b ++ t)) (four_two a)
    ∙ ap (λ u. strcmp ((two_digits (a / 100) ++ two_digits (a % 100)) ++ s) (u ++ t)) (four_two b)
    ∙ (strcmp-two_digits (a / 100) (b / 100) (two_digits (a % 100) ++ s) (two_digits (b % 100) ++ t)
          (omega arith) (omega arith)
        ∙ ap (then_by (a / 100) (b / 100))
            (strcmp-two_digits (a % 100) (b % 100) s t (omega arith) (omega arith))
        ∙ then_by-parts a b (strcmp s t))

-- Dates whose fields have the width of the format.
pub record Printable (d : Date) : Type 0 where
  pub year_lt : d.year < 10000
  pub month_lt : d.month < 100
  pub day_lt : d.day < 100

-- Chronological order.
abbrev pub compare_dates : Date → Date → Ordering
compare_dates a b =
    then_by a.year b.year (then_by a.month b.month (then_by a.day b.day Ordering.eq))

format_date_lem :
    (d : Date)
    → Printable d
    → format_date d
      ≡ four_digits d.year ++ (b'-' ∷ (two_digits d.month ++ (b'-' ∷ two_digits d.day)))
unfolding format_date padded_four padded_two
format_date_lem d p =
    let y : ltb d.year 10000 ≡ true = ground (arith, p.year_lt) in
    let m : ltb d.month 100 ≡ true = ground (arith, p.month_lt) in
    let n : ltb d.day 100 ≡ true = ground (arith, p.day_lt) in rw (y, m, n) refl

strcmp-dash : (s t : Bytes) → strcmp (b'-' ∷ s) (b'-' ∷ t) ≡ strcmp s t
unfolding strcmp
strcmp-dash s t = refl

-- `strcmp` on two formatted dates is their chronological order, for years of at most four digits.
pub strcmp-format_date :
    (a b : Date)
    → Printable a
    → Printable b
    → strcmp (format_date a) (format_date b) ≡ compare_dates a b
strcmp-format_date a b p q =
    ap (λ u. strcmp u (format_date b)) (format_date_lem a p)
    ∙ ap
        (λ u.
          strcmp (four_digits a.year ++ (b'-' ∷ (two_digits a.month ++ (b'-' ∷ two_digits a.day))))
            u)
        (format_date_lem b q)
    ∙ (strcmp-four_digits a.year b.year _ _ p.year_lt q.year_lt
        ∙ ap (then_by a.year b.year) (
            strcmp-dash _ _
            ∙ strcmp-two_digits a.month b.month _ _ p.month_lt q.month_lt
            ∙ ap (then_by a.month b.month) (
                strcmp-dash _ _
                ∙ ap (λ s. strcmp s (two_digits b.day)) (sym (append-nil (two_digits a.day)))
                ∙ ap (λ s. strcmp (two_digits a.day ++ []) s) (sym (append-nil (two_digits b.day)))
                ∙ strcmp-two_digits a.day b.day [] [] p.day_lt q.day_lt
                ∙ ap (then_by a.day b.day) (unfold strcmp in refl))))
