-- ===== src/Calendar/Weekday.antt =====
-- The day after a date has the next day number and the next weekday.
use las_shell.Prelude.{
  ℕ, zero, suc, ◌+◌, ◌-◌, ◌*◌, ◌/◌, ◌%◌, ◌<◌, ◌≤◌, ◌≡◌, refl, ◌∙◌, ltb, ◌==◌, if◌then◌else◌, arith,
  Bool-cases, inl, inr,
}
use las_shell.Calendar.Date.{
  Date, is_leap, month_length, days_before, day_number, weekday_of_date, next_day, add_days,
}

pub record IsDate (d : Date) : Type 0 where
  pub year_pos : 1 ≤ d.year
  pub month_pos : 1 ≤ d.month
  pub month_le : d.month ≤ 12
  pub day_pos : 1 ≤ d.day
  pub day_le : d.day ≤ month_length d.year d.month

abbrev leap_day : ℕ → ℕ
leap_day y = if is_leap y then 1 else 0

-- The leap years up to a year.
abbrev leaps : ℕ → ℕ
leaps y = y / 4 - y / 100 + y / 400

leaps-suc : (y : ℕ) → leaps (suc y) ≡ leaps y + leap_day (suc y)
unfolding is_leap
leaps-suc y = ground arith

days_before-suc :
    (y m : ℕ) → 1 ≤ m → m < 12 → days_before y (m + 1) ≡ days_before y m + month_length y m
unfolding days_before month_length
days_before-suc y m h k = ground arith

days_before_last : (y : ℕ) → days_before y 12 + month_length y 12 ≡ 365 + leap_day y
unfolding days_before month_length
days_before_last y = ground arith

leaps_parts : (y : ℕ) → y / 100 ≤ y / 4
leaps_parts y = omega arith

-- Within the months of a year `timegm` has nothing to carry.
day_number_lem :
    (d : Date)
    → 1 ≤ d.month
    → d.month ≤ 12
    → day_number d ≡ 365 * (d.year - 1) + leaps (d.year - 1) + days_before d.year d.month + d.day
unfolding day_number
day_number_lem d h k =
    let carry : d.year + (d.month + 11) / 12 - 1 ≡ d.year = omega arith in
    let month : (d.month + 11) % 12 + 1 ≡ d.month = omega arith in rw (carry, month) (omega arith)

days_before_first : (y : ℕ) → days_before y 1 ≡ 0
unfolding days_before
days_before_first y = refl

new_year : (y : ℕ) → 1 ≤ y → leaps y ≡ leaps (y - 1) + leap_day y
new_year y h = let e : suc (y - 1) ≡ y = omega arith in rw e at (leaps-suc (y - 1))

day_number-next_day : (d : Date) → IsDate d → day_number (next_day d) ≡ suc (day_number d)
unfolding next_day
day_number-next_day d v = elim (Bool-cases (ltb d.day (month_length d.year d.month))) [
  | inl within ↦ rw within (
      day_number_lem (record d { day = d.day + 1 }) v.month_pos v.month_le
      ∙ omega (arith, day_number_lem d v.month_pos v.month_le))
  | inr last ↦
      let end : d.day ≡ month_length d.year d.month = ground (arith, v.day_le) in
      elim (Bool-cases (d.month == 12)) [
        | inl december ↦
            let m : d.month ≡ 12 = ground arith in
            let total : days_before d.year d.month + month_length d.year d.month
                ≡ 365 + leap_day d.year =
              rw m (days_before_last d.year) in
            let y : d.year + 1 - 1 ≡ d.year = omega arith in
            rw (last, december)
              (day_number_lem (record { year = d.year + 1; month = 1; day = 1 }) (omega arith)
                  (omega arith)
                ∙ rw y (
                    omega (
                      arith,
                      day_number_lem d v.month_pos v.month_le,
                      end,
                      total,
                      days_before_first (d.year + 1),
                      new_year d.year v.year_pos,
                      v.year_pos,
                    )))
        | inr earlier ↦
            let less : d.month < 12 = ground (arith, v.month_le) in
            rw (last, earlier)
              (day_number_lem (record { year = d.year; month = d.month + 1; day = 1 }) (omega arith)
                  (omega arith)
                ∙ omega (
                  arith,
                  day_number_lem d v.month_pos v.month_le,
                  end,
                  days_before-suc d.year d.month v.month_pos less,
                ))
      ]
]

month_length_pos : (y m : ℕ) → 1 ≤ month_length y m
unfolding month_length
month_length_pos y m = ground arith

pub next_day-IsDate : (d : Date) → IsDate d → IsDate (next_day d)
unfolding next_day
next_day-IsDate d v = elim (Bool-cases (ltb d.day (month_length d.year d.month))) [
  | inl within ↦
      let le : d.day + 1 ≤ month_length d.year d.month = ground arith in
      rw within (record {
        year_pos = v.year_pos;
        month_pos = v.month_pos;
        month_le = v.month_le;
        day_pos = omega arith;
        day_le = le;
      })
  | inr last ↦ elim (Bool-cases (d.month == 12)) [
    | inl december ↦
        rw (last, december)
          (record {
            year_pos = omega arith;
            month_pos = omega arith;
            month_le = omega arith;
            day_pos = omega arith;
            day_le = month_length_pos (d.year + 1) 1;
          })
    | inr earlier ↦
        let less : d.month + 1 ≤ 12 = ground (arith, v.month_le) in
        rw (last, earlier)
          (record {
            year_pos = v.year_pos;
            month_pos = omega arith;
            month_le = less;
            day_pos = omega arith;
            day_le = month_length_pos d.year (d.month + 1);
          })
  ]
]

pub add_days-IsDate : (d : Date) (n : ℕ) → IsDate d → IsDate (add_days d n)
unfolding add_days
add_days-IsDate d zero v = v
add_days-IsDate d (suc n) v = add_days-IsDate (next_day d) n (next_day-IsDate d v)

day_number-add_days : (d : Date) (n : ℕ) → IsDate d → day_number (add_days d n) ≡ day_number d + n
unfolding add_days
day_number-add_days d zero v = omega arith
day_number-add_days d (suc n) v =
    omega (arith, day_number-add_days (next_day d) n (next_day-IsDate d v), day_number-next_day d v)

-- Walking `n` days on from a date of the calendar, over the ends of months and years and over leap
-- days, gives a date of the calendar, with a day number `n` higher and a weekday `n` later in the week.
pub add_days_lem :
    (d : Date) (n : ℕ)
    → IsDate d
    → IsDate (add_days d n)
      × (day_number (add_days d n) ≡ day_number d + n)
      × (weekday_of_date (add_days d n) ≡ (weekday_of_date d + n) % 7)
unfolding weekday_of_date
add_days_lem d n v =
    let e = day_number-add_days d n v in (add_days-IsDate d n v, e, omega (arith, e))
