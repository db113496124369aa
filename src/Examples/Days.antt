-- ===== src/Examples/Days.antt =====
-- The calendar's dates and queries at concrete inputs.
use las_shell.Calendar.Query.{is_skipped}
use las_shell.Registry.Search.{binary_search}
use las_shell.Prelude.{
  ℕ, ◌+◌, ◌%◌, codes, true, false, none, some, [], ◌∷◌, ◌≡◌, refl, ◌↔◌, arith, Ordering,
}
use las_shell.CString.Libc.{strcmp}
use las_shell.Calendar.Date.{Date, format_date, add_days, day_number, weekday_of_date, month_length}
use las_shell.Calendar.Exchange.{HolidayEntry, Exchange, find_holiday}
use las_shell.Calendar.Query.{
  compute_day_schedule, LocalTime, status_at, calendar_is_open, minutes_until_change, is_skipped,
  find_next_boundary,
}
use las_shell.Calendar.Order.{strcmp-format_date}
use las_shell.Calendar.Weekday.{IsDate, add_days_lem}
use las_shell.Calendar.Status.{TradesAt, calendar_is_open_iff}
use las_shell.Calendar.Change.{minutes_until_change_steady}
use las_shell.Calendar.Loaded.{IsSorted}

abbrev on : ℕ → ℕ → ℕ → Date
on y m d = record { year = y; month = m; day = d }

abbrev new_year : HolidayEntry
new_year = record { date = codes "2026-01-01"; is_closed = true; early_close_min = none }

abbrev christmas_eve : HolidayEntry
christmas_eve = record { date = codes "2026-12-24"; is_closed = false; early_close_min = some 780 }

abbrev nyse : Exchange
nyse = record {
  code = codes "XNYS";
  name = codes "NYSE";
  timezone = codes "America/New_York";
  regular_open_min = 570;
  regular_close_min = 960;
  pre = some (240, 570);
  after = some (960, 1200);
  lunch = none;
  holidays = new_year ∷ christmas_eve ∷ [];
  gen_range_start = [];
  gen_range_end = [];
}

nyse-IsSorted : IsSorted nyse
unfolding strcmp
nyse-IsSorted = ((refl, tt), (tt, tt))

abbrev at : Date → ℕ → LocalTime
at d m = record { date = d; minute = m }

strcmp-format_date_example :
    strcmp (format_date (on 2026 12 24)) (format_date (on 2027 1 4)) ≡ Ordering.lt
strcmp-format_date_example =
    strcmp-format_date (on 2026 12 24) (on 2027 1 4)
      (record { year_lt = omega arith; month_lt = omega arith; day_lt = omega arith })
      (record { year_lt = omega arith; month_lt = omega arith; day_lt = omega arith })

leap_day-IsDate : IsDate (on 2024 2 29)
unfolding month_length
leap_day-IsDate = record {
  year_pos = omega arith;
  month_pos = omega arith;
  month_le = omega arith;
  day_pos = omega arith;
  day_le = omega arith;
}

add_days_lem_example :
    IsDate (add_days (on 2024 2 29) 366)
    × (day_number (add_days (on 2024 2 29) 366) ≡ day_number (on 2024 2 29) + 366)
    × (weekday_of_date (add_days (on 2024 2 29) 366) ≡ (weekday_of_date (on 2024 2 29) + 366) % 7)
add_days_lem_example = add_days_lem (on 2024 2 29) 366 leap_day-IsDate

calendar_is_open_iff_example :
    (calendar_is_open (some nyse) (at (on 2026 12 24) 700) ≡ true)
    ↔ TradesAt nyse (at (on 2026 12 24) 700)
calendar_is_open_iff_example = calendar_is_open_iff nyse (at (on 2026 12 24) 700) nyse-IsSorted

open_on_christmas_eve :
    (calendar_is_open (some nyse) (at (on 2026 12 24) 700) ≡ true)
    × (calendar_is_open (some nyse) (at (on 2026 12 24) 800) ≡ false)
    × (calendar_is_open (some nyse) (at (on 2026 1 1) 700) ≡ false)
unfolding calendar_is_open weekday_of_date find_holiday binary_search strcmp format_date
open_on_christmas_eve = (refl, refl, refl)

christmas_eve_change : minutes_until_change nyse (at (on 2026 12 24) 700) ≡ some 80
unfolding minutes_until_change compute_day_schedule weekday_of_date find_holiday binary_search
    strcmp format_date
christmas_eve_change = refl

minutes_until_change_steady_example :
    status_at nyse (compute_day_schedule nyse (on 2026 12 24)) 779
    ≡ status_at nyse (compute_day_schedule nyse (on 2026 12 24)) 700
minutes_until_change_steady_example =
    minutes_until_change_steady nyse (at (on 2026 12 24) 700) 80 779 christmas_eve_change
      (omega arith) (omega arith)

opens_after_new_year :
    find_next_boundary nyse true (at (on 2025 12 31) 1000) ≡ some (at (on 2026 1 2) 570)
unfolding find_next_boundary compute_day_schedule weekday_of_date find_holiday binary_search strcmp
    format_date is_skipped add_days
opens_after_new_year = refl
