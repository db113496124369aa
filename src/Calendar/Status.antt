-- ===== src/Calendar/Status.antt =====
-- When an exchange is open.
use mathlib.Core.Option
use las_shell.Prelude.{
  ℕ, ◌<◌, ◌≤◌, ◌≡◌, refl, sym, ◌∙◌, ◌↔◌, Bool, true, false, Option, none, some, arith,
}
use las_shell.Calendar.Date.{format_date}
use las_shell.Calendar.Exchange.{HolidayEntry, Exchange, find_holiday}
use las_shell.Calendar.Loaded.{IsSorted}
use las_shell.Calendar.Trading.{
  trading_close, ClosesAt, Outside, in_session_iff, weekday_false, close_lem,
}
use las_shell.Calendar.Query.{
  is_weekend, holiday_schedule, compute_day_schedule, in_session, status_at, LocalTime,
  calendar_status, calendar_is_open, is_open_status,
}

-- The tests of the code on the weekday, the entry and the minute.
abbrev Trades : Exchange → Bool → Option HolidayEntry → ℕ → Type 0
Trades ex weekend h cur =
    (weekend ≡ false)
    × ((close : ℕ) × (trading_close h ex.regular_close_min ≡ some close)
        × (in_session ex.pre cur ≡ false)
        × (in_session ex.lunch cur ≡ false)
        × (ex.regular_open_min ≤ cur)
        × (cur < close))

open_iff :
    (ex : Exchange) (weekend : Bool) (h : Option HolidayEntry) (cur : ℕ)
    → (is_open_status (status_at ex (holiday_schedule weekend h ex.regular_close_min) cur) ≡ true)
      ↔ Trades ex weekend h cur
unfolding status_at
open_iff ex true h cur = ((λ e. ground arith), λ t. ground arith)
open_iff ex false none cur = (
  (λ e.
      (refl, (ex.regular_close_min, refl, ground arith, ground arith, ground arith, ground arith))),
  λ t. ground arith,
)
open_iff ex false (some x) cur = (
  (λ e. (
    refl,
    (
      Option.get_or x.early_close_min ex.regular_close_min,
      ground arith,
      ground arith,
      ground arith,
      ground arith,
      ground arith,
    ),
  )),
  λ t. ground arith,
)

-- The exchange trades at the minute: on neither Saturday nor Sunday nor a day that its holidays close,
-- outside pre-market and lunch, and from the regular open to the close of the day.
abbrev pub TradesAt : Exchange → LocalTime → Type 0
TradesAt ex now =
    (close : ℕ) × ClosesAt ex now.date close
    × Outside ex.pre now.minute
    × Outside ex.lunch now.minute
    × (ex.regular_open_min ≤ now.minute)
    × (now.minute < close)

-- An exchange whose holidays are sorted is open exactly on days that are neither Saturday nor Sunday
-- and that no entry of its list of holidays closes, outside its pre-market and lunch sessions, from
-- its regular open until the early close that the entry of the day gives or else the regular close.
pub calendar_is_open_iff :
    (ex : Exchange) (now : LocalTime)
    → IsSorted ex
    → (calendar_is_open (some ex) now ≡ true) ↔ TradesAt ex now
unfolding calendar_is_open calendar_status compute_day_schedule
calendar_is_open_iff ex now sorted =
    let same = close_lem ex sorted now.date in
    let (there, back) =
      open_iff ex (is_weekend now.date) (find_holiday ex (format_date now.date)) now.minute in
    let (pre_out, pre_in) = in_session_iff ex.pre now.minute in
    let (lunch_out, lunch_in) = in_session_iff ex.lunch now.minute in
    let (weekday, no_weekend) = weekday_false now.date in
    (
      (λ e.
          let (w, (close, c, p, l, o, u)) = there e in
          (close, (weekday w, sym same ∙ c), pre_out p, lunch_out l, o, u)),
      λ t.
          let (close, (w, c), p, l, o, u) = t in
          back (no_weekend w, (close, same ∙ c, pre_in p, lunch_in l, o, u)),
    )
