-- ===== src/Calendar/Trading.antt =====
-- What a trading day is, in terms of the calendar and of an exchange's list of holidays alone.
use mathlib.Core.Option
use las_shell.Prelude.{
  ℕ, ◌%◌, ◌<◌, ◌≤◌, ◌≡◌, ◌⊎◌, inl, inr, ◌↔◌, refl, ap, sym, ◌∙◌, Bool, true, false, Option, none,
  some, arith, Bool-cases, if◌then◌else◌,
}
use las_shell.Calendar.Date.{Date, day_number, weekday_of_date, format_date}
use las_shell.Calendar.Exchange.{HolidayEntry, Exchange, find_holiday}
use las_shell.Calendar.Query.{is_weekend, holiday_schedule, compute_day_schedule, in_session}
use las_shell.Calendar.Holidays.{find_date}
use las_shell.Calendar.Loaded.{IsSorted}
use las_shell.Calendar.Start.{find_holiday-find_date}

-- Saturday or Sunday: day 0 is a Sunday.
abbrev pub IsWeekend : Date → Type 0
IsWeekend d = (day_number d % 7 ≡ 6) ⊎ (day_number d % 7 ≡ 0)

-- The close of a day with this holiday entry, if the exchange trades on it.
abbrev pub trading_close : Option HolidayEntry → ℕ → Option ℕ
trading_close none regular = some regular
trading_close (some h) regular =
    if h.is_closed then none else some (Option.get_or h.early_close_min regular)

-- The close that the list of holidays gives a day.
abbrev pub listed_close : Exchange → Date → Option ℕ
listed_close ex d = trading_close (find_date (format_date d) ex.holidays) ex.regular_close_min

-- A weekday that no entry closes, with its close.
abbrev pub ClosesAt : Exchange → Date → ℕ → Type 0
ClosesAt ex d close = (IsWeekend d → ⊥) × (listed_close ex d ≡ some close)

-- A weekend, or a day that an entry closes.
abbrev pub Closed : Exchange → Date → Type 0
Closed ex d = IsWeekend d ⊎ (listed_close ex d ≡ none)

-- The minute is before a session or not before its end; where there is no session, always.
abbrev pub Outside : Option (ℕ × ℕ) → ℕ → Type 0
Outside none cur = Unit
Outside (some (from, until)) cur = (cur < from) ⊎ (until ≤ cur)

pub in_session_iff : (s : Option (ℕ × ℕ)) (cur : ℕ) → (in_session s cur ≡ false) ↔ Outside s cur
in_session_iff none cur = ((λ e. tt), λ u. refl)
in_session_iff (some (from, until)) cur = ((λ e. ground (arith, e)), λ u. ground (arith, u))

is_weekend_iff : (d : Date) → (is_weekend d ≡ true) ↔ IsWeekend d
unfolding weekday_of_date
is_weekend_iff d = ((λ e. ground (arith, e)), λ w. ground (arith, w))

pub weekday_false : (d : Date) → (is_weekend d ≡ false) ↔ (IsWeekend d → ⊥)
weekday_false d = (
  (λ e w. ground (arith, (is_weekend_iff d).1 w)),
  λ n. elim (Bool-cases (is_weekend d)) [
    | inl rest_day ↦ absurd (n ((is_weekend_iff d).0 rest_day))
    | inr weekday ↦ weekday
  ],
)

-- The schedule from the weekday and the holiday entry, read either way.
holiday_schedule_lem :
    (weekend : Bool) (h : Option HolidayEntry) (regular : ℕ)
    → ((holiday_schedule weekend h regular).is_full_holiday ≡ true
        → (weekend ≡ true) ⊎ (trading_close h regular ≡ none))
      × ((holiday_schedule weekend h regular).is_full_holiday ≡ false
          → (weekend ≡ false)
            × (trading_close h regular
                ≡ some (holiday_schedule weekend h regular).effective_close_min))
holiday_schedule_lem true h regular = ((λ e. inl refl), λ e. ground arith)
holiday_schedule_lem false none regular = ((λ e. ground arith), λ e. (refl, refl))
holiday_schedule_lem false (some h) regular = elim (Bool-cases h.is_closed) [
  | inl shut ↦ rw shut ((λ e. inr refl), λ e. ground arith)
  | inr trades ↦ rw trades ((λ e. ground arith), λ e. (refl, refl))
]

module _ (ex : Exchange) (sorted : IsSorted ex) (d : Date) where
  found : find_holiday ex (format_date d) ≡ find_date (format_date d) ex.holidays
  found = find_holiday-find_date ex (format_date d) sorted

  pub close_lem :
      trading_close (find_holiday ex (format_date d)) ex.regular_close_min ≡ listed_close ex d
  close_lem = ap (λ h. trading_close h ex.regular_close_min) found

  -- A day that the schedule calls a full holiday is a weekend or closed by an entry.
  pub full_holiday-Closed : (compute_day_schedule ex d).is_full_holiday ≡ true → Closed ex d
  unfolding compute_day_schedule
  full_holiday-Closed e =
      elim ((holiday_schedule_lem (is_weekend d) (find_holiday ex (format_date d)) _).0 e) [
        | inl w ↦ inl ((is_weekend_iff d).0 w)
        | inr shut ↦ inr (sym close_lem ∙ shut)
      ]

  -- Any other day is a weekday with the close that the list of holidays gives it.
  pub trading_day-ClosesAt :
      (compute_day_schedule ex d).is_full_holiday ≡ false
      → ClosesAt ex d (compute_day_schedule ex d).effective_close_min
  unfolding compute_day_schedule
  trading_day-ClosesAt e =
      let (w, close) =
        (holiday_schedule_lem (is_weekend d) (find_holiday ex (format_date d)) _).1 e in
      ((weekday_false d).0 w, sym close_lem ∙ close)
