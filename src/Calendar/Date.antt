-- ===== src/Calendar/Date.antt =====
-- src/calendar.c: dates. `timegm` and `gmtime` of the C library are the proleptic Gregorian calendar,
-- given here by the day number of a date and by the date of the next day; years start at 1 and a
-- field is a number, so a date with a sign in front of a field is outside the model.
use las_shell.Prelude.{
  ℕ, zero, suc, ◌+◌, ◌-◌, ◌*◌, ◌/◌, ◌%◌, Bytes, Bool, not, ◌&&◌, ◌||◌, take, [], ◌∷◌, ◌++◌, ltb,
  ◌==◌, if◌then◌else◌,
}
use las_shell.TimeFormat.{two_digits, four_digits}

pub record Date : Type 0 where
  pub year : ℕ
  pub month : ℕ
  pub day : ℕ

unfoldable pub is_leap : ℕ → Bool
is_leap y = y % 4 == 0 && not (y % 100 == 0) || y % 400 == 0

unfoldable pub month_length : ℕ → ℕ → ℕ
unfolding is_leap
month_length y m =
    if m == 2
    then (if is_leap y then 29 else 28)
    else if m == 4 || m == 6 || m == 9 || m == 11
    then 30
    else 31

-- The days of a year in front of a month.
unfoldable pub days_before : ℕ → ℕ → ℕ
unfolding is_leap
days_before y m =
    (if m == 1
      then 0
      else if m == 2
      then 31
      else if m == 3
      then 59
      else if m == 4
      then 90
      else if m == 5
      then 120
      else if m == 6
      then 151
      else if m == 7
      then 181
      else if m == 8
      then 212
      else if m == 9
      then 243
      else if m == 10
      then 273
      else if m == 11
      then 304
      else 334)
    + (if ltb 2 m && is_leap y then 1 else 0)

-- Days since 31 December of the year 0; `timegm` carries months over 12 into the year.
unfoldable pub day_number : Date → ℕ
unfolding days_before
day_number d =
    let y = d.year + (d.month + 11) / 12 - 1 in
    let m = (d.month + 11) % 12 + 1 in
    365 * (y - 1) + (y - 1) / 4 - (y - 1) / 100 + (y - 1) / 400 + days_before y m + d.day

-- 1 January of the year 1 is a Monday; 0 is Sunday.
unfoldable pub weekday_of_date : Date → ℕ
unfolding day_number
weekday_of_date d = day_number d % 7

unfoldable pub next_day : Date → Date
unfolding month_length
next_day d =
    if ltb d.day (month_length d.year d.month)
    then record d { day = d.day + 1 }
    else if d.month == 12
    then record { year = d.year + 1; month = 1; day = 1 }
    else record { year = d.year; month = d.month + 1; day = 1 }

unfoldable pub add_days : Date → ℕ → Date
unfolding next_day
add_days d zero = d
add_days d (suc n) = add_days (next_day d) n

-- `%04d` and `%02d` of numbers with more digits than that.
unfoldable pub decimal_from : ℕ → ℕ → Bytes → Bytes
decimal_from zero n acc = acc
decimal_from (suc fuel) n acc =
    let more = decimal_from fuel (n / 10) ((b'0' + n % 10) ∷ acc) in if n == 0 then acc else more

unfoldable pub padded_four : ℕ → Bytes
unfolding decimal_from
padded_four n = if ltb n 10000 then four_digits n else decimal_from n n []

unfoldable pub padded_two : ℕ → Bytes
unfolding decimal_from
padded_two n = if ltb n 100 then two_digits n else decimal_from n n []

-- `snprintf(buf, 11, "%04d-%02d-%02d", y, mo, d)`
unfoldable pub format_date : Date → Bytes
unfolding padded_four padded_two
format_date d =
    take 10 (padded_four d.year ++ (b'-' ∷ (padded_two d.month ++ (b'-' ∷ padded_two d.day))))
