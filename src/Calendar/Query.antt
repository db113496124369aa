-- ===== src/Calendar/Query.antt =====
-- src/calendar.c: the schedule of a day and the public questions. The present time, converted to the
-- exchange's zone by the operating system, is an argument, and so is the conversion back to UTC.
use mathlib.Core.Option
use las_shell.Prelude.{
  ℕ, zero, suc, ◌+◌, ◌-◌, ◌*◌, ◌/◌, ◌%◌, Bytes, Bool, true, false, not, ◌&&◌, ◌||◌, Option, none,
  some, List, [], ◌∷◌, ◌++◌, leb, ltb, ◌==◌, if◌then◌else◌, ◌>>=◌, Ordering,
}
use las_shell.CString.Libc.{strcmp}
use las_shell.TimeFormat.{two_digits}
use las_shell.Calendar.Date.{Date, weekday_of_date, add_days, format_date}
use las_shell.Calendar.Exchange.{HolidayEntry, Exchange, find_holiday}
use las_shell.Calendar.Load.{scan_int, scan_byte}

pub record DaySchedule : Type 0 where
  pub is_full_holiday : Bool
  pub early_close_min : Option ℕ
  pub effective_close_min : ℕ

abbrev pub is_weekend : Date → Bool
is_weekend d = weekday_of_date d == 0 || weekday_of_date d == 6

abbrev pub holiday_schedule : Bool → Option HolidayEntry → ℕ → DaySchedule
holiday_schedule true h close = record {
  is_full_holiday = true;
  early_close_min = none;
  effective_close_min = close;
}
holiday_schedule false none close = record {
  is_full_holiday = false;
  early_close_min = none;
  effective_close_min = close;
}
holiday_schedule false (some h) close =
    if h.is_closed
    then record { is_full_holiday = true; early_close_min = none; effective_close_min = close }
    else record {
      is_full_holiday = false;
      early_close_min = h.early_close_min;
      effective_close_min = Option.get_or h.early_close_min close;
    }

unfoldable pub compute_day_schedule : Exchange → Date → DaySchedule
compute_day_schedule ex d =
    holiday_schedule (is_weekend d) (find_holiday ex (format_date d)) ex.regular_close_min

pub data Status : Type 0 where
  closed pre_market open_now lunch_break after_hours early_close : Status

abbrev pub in_session : Option (ℕ × ℕ) → ℕ → Bool
in_session none cur = false
in_session (some (from, until)) cur = leb from cur && ltb cur until

abbrev pub is_some_min : Option ℕ → Bool
is_some_min none = false
is_some_min (some m) = true

-- The tests of `calendar_status` on the minute of the day.
unfoldable pub status_at : Exchange → DaySchedule → ℕ → Status
status_at ex sched cur =
    if sched.is_full_holiday
    then closed
    else if in_session ex.pre cur
    then pre_market
    else if in_session ex.lunch cur
    then lunch_break
    else if leb ex.regular_open_min cur && ltb cur sched.effective_close_min
    then (if is_some_min sched.early_close_min then early_close else open_now)
    else if in_session ex.after cur
    then after_hours
    else closed

-- The local date, and the minute of the day.
pub record LocalTime : Type 0 where
  pub date : Date
  pub minute : ℕ

unfoldable pub calendar_status : Option Exchange → LocalTime → Status
unfolding compute_day_schedule status_at
calendar_status none now = closed
calendar_status (some ex) now = status_at ex (compute_day_schedule ex now.date) now.minute

abbrev pub is_open_status : Status → Bool
is_open_status open_now = true
is_open_status early_close = true
is_open_status _ = false

unfoldable pub calendar_is_open : Option Exchange → LocalTime → Bool
unfolding calendar_status
calendar_is_open ex now = is_open_status (calendar_status ex now)

abbrev pub session_bounds : Option (ℕ × ℕ) → List ℕ
session_bounds none = []
session_bounds (some (from, until)) = from ∷ until ∷ []

unfoldable pub boundaries : Exchange → DaySchedule → List ℕ
boundaries ex sched =
    session_bounds ex.pre
    ++ (session_bounds ex.lunch
        ++ (ex.regular_open_min ∷ sched.effective_close_min ∷ session_bounds ex.after))

abbrev pub better : ℕ → Option ℕ → Bool
better b none = true
better b (some best) = ltb b best

-- The loop that keeps the least boundary above `cur`.
unfoldable pub best_from : ℕ → Option ℕ → List ℕ → Option ℕ
best_from cur best [] = best
best_from cur best (b ∷ bs) = best_from cur (if ltb cur b && better b best then some b else best) bs

abbrev pub first_boundary : Exchange → ℕ
first_boundary ex = elim ex.pre [ none ↦ ex.regular_open_min | some (from, until) ↦ from ]

-- The days from the next one on, `step` of them passed; `left` rounds remain of the 30.
unfoldable pub roll_forward : ℕ → Exchange → Date → ℕ → ℕ → Option ℕ
roll_forward zero ex date passed until_midnight = none
roll_forward (suc left) ex date passed until_midnight =
    let next = add_days date 1 in
    let later = roll_forward left ex next (passed + 1) until_midnight in
    if (compute_day_schedule ex next).is_full_holiday
    then later
    else some (until_midnight + passed * 1440 + first_boundary ex)

abbrev pub or_roll : Option ℕ → ℕ → Option ℕ → Option ℕ
or_roll none cur later = later
or_roll (some best) cur later = some (best - cur)

-- `none` is the result -1.
unfoldable pub minutes_until_change : Exchange → LocalTime → Option ℕ
unfolding boundaries best_from
minutes_until_change ex now =
    let sched = compute_day_schedule ex now.date in
    let today = best_from now.minute none (boundaries ex sched) in
    let later = roll_forward 30 ex now.date 0 (1440 - now.minute) in
    if sched.is_full_holiday then later else or_roll today now.minute later

unfoldable pub calendar_minutes_until_change : Option Exchange → LocalTime → Option ℕ
unfolding minutes_until_change
calendar_minutes_until_change none now = none
calendar_minutes_until_change (some ex) now = minutes_until_change ex now

-- `sscanf(date_iso, "%d-%d-%d", ...) == 3`
unfoldable pub scan_date : Bytes → Option Date
scan_date s = do
  (y, r₁) ← scan_int s
  r₂ ← scan_byte b'-' r₁
  (m, r₃) ← scan_int r₂
  r₄ ← scan_byte b'-' r₃
  (d, end) ← scan_int r₄
  some (record { year = y; month = m; day = d })

abbrev schedule_of : Option Exchange → Bytes → Option DaySchedule
schedule_of none date_iso = none
schedule_of (some ex) date_iso = Option.map (compute_day_schedule ex) (scan_date date_iso)

unfoldable pub calendar_is_holiday : Option Exchange → Bytes → Bool
unfolding compute_day_schedule scan_date
calendar_is_holiday ex date_iso = elim (schedule_of ex date_iso) [
  | none ↦ false
  | some sched ↦ sched.is_full_holiday
]

unfoldable pub calendar_is_early_close : Option Exchange → Bytes → Bool
unfolding compute_day_schedule scan_date
calendar_is_early_close ex date_iso = elim (schedule_of ex date_iso) [
  | none ↦ false
  | some sched ↦ not sched.is_full_holiday && is_some_min sched.early_close_min
]

abbrev close_text : DaySchedule → Option Bytes
close_text sched =
    if sched.is_full_holiday
    then none
    else Option.map (λ m. two_digits (m / 60 % 24) ++ (b':' ∷ two_digits (m % 60)))
        sched.early_close_min

unfoldable pub calendar_early_close_time : Option Exchange → Bytes → Option Bytes
unfolding compute_day_schedule scan_date
calendar_early_close_time ex date_iso = schedule_of ex date_iso >>= close_text

-- `strcmp(date, ex->gen_range_end) > 0` where there is an end.
abbrev pub is_past : Bytes → Bytes → Bool
is_past date [] = false
is_past date (c ∷ cs) = elim (strcmp date (c ∷ cs)) [ Ordering.gt ↦ true | _ ↦ false ]

abbrev pub target_min : Exchange → Bool → DaySchedule → ℕ
target_min ex want_open sched = if want_open then ex.regular_open_min else sched.effective_close_min

-- The day is skipped: a holiday, or today with the time already passed.
unfoldable pub is_skipped : Exchange → Bool → LocalTime → ℕ → Bool
is_skipped ex want_open now step =
    let sched = compute_day_schedule ex (add_days now.date step) in
    sched.is_full_holiday || step == 0 && leb (target_min ex want_open sched) now.minute

-- The loop from `step` on, with `left` rounds remaining: the local date and minute that are converted
-- to UTC, or `none` where the result is 0.
unfoldable pub boundary_from : ℕ → Exchange → Bool → LocalTime → ℕ → Option LocalTime
boundary_from zero ex want_open now step = none
boundary_from (suc left) ex want_open now step =
    let day = add_days now.date step in
    let later = boundary_from left ex want_open now (step + 1) in
    if is_past (format_date day) ex.gen_range_end
    then none
    else if is_skipped ex want_open now step
    then later
    else some
        (record { date = day; minute = target_min ex want_open (compute_day_schedule ex day) })

unfoldable pub find_next_boundary : Exchange → Bool → LocalTime → Option LocalTime
unfolding boundary_from
find_next_boundary ex want_open now = boundary_from 401 ex want_open now 0

module _ (local_to_utc : Bytes → LocalTime → ℕ) where
  unfoldable pub next_time : Bool → Option Exchange → LocalTime → ℕ
  unfolding find_next_boundary
  next_time want_open none now = 0
  next_time want_open (some ex) now = elim (find_next_boundary ex want_open now) [
    | none ↦ 0
    | some at ↦ local_to_utc ex.timezone at
  ]

  unfoldable pub calendar_next_open_time : Option Exchange → LocalTime → ℕ
  unfolding next_time
  calendar_next_open_time ex now = next_time true ex now

  unfoldable pub calendar_next_close_time : Option Exchange → LocalTime → ℕ
  unfolding next_time
  calendar_next_close_time ex now = next_time false ex now
