-- ===== src/Operators/Wait.antt =====
-- src/operators.c: `handle_market_wait_operator` with `maybe_consume_exchange` and `default_exchange`.
-- An instant is a number of seconds, 0 where the C function gives a time that has passed.
use mathlib.Core.Option
use las_shell.Prelude.{
  ℕ, ◌-◌, ◌*◌, Bytes, codes, Option, none, some, List, [], ◌∷◌, ◌==◌, if◌then◌else◌,
}
use las_shell.CString.Libc.{str_eq}
use las_shell.Calendar.Load.{skip_white, scan_unsigned}
use las_shell.Operators.Shell.{Shell}

-- `args[0]` is neither operator; it failed; or it was handled, and these arguments are left.
pub data Waited : Type 0 where
  not_an_operator failed : Waited
  handled : List Bytes → Waited

-- A number at the end of its text; a `strtol` that goes on, or that is negative, is refused. -0 is 0.
abbrev pub to_end : ℕ × Bytes → Option ℕ
to_end (n, []) = some n
to_end (n, c ∷ cs) = none

abbrev pub not_negative : Option ℕ → Option ℕ
not_negative none = none
not_negative (some n) = if n == 0 then some 0 else none

abbrev pub signed : Bytes → Option ℕ
signed [] = none
signed (c ∷ cs) =
    if c == b'-'
    then not_negative (Option.bind (scan_unsigned cs) to_end)
    else if c == b'+'
    then Option.bind (scan_unsigned cs) to_end
    else Option.bind (scan_unsigned (c ∷ cs)) to_end

-- The test on `strtol(MINUTES, &endp, 10)`, for numbers that fit a `long`.
unfoldable pub parse_minutes : Bytes → Option ℕ
unfolding skip_white scan_unsigned
parse_minutes s = signed (skip_white s)

abbrev pub value_or_nyse : Option Bytes → Bytes
value_or_nyse none = codes "NYSE"
value_or_nyse (some []) = codes "NYSE"
value_or_nyse (some (c ∷ cs)) = c ∷ cs

module _ {World : Type 0} (sh : Shell World) where
  unfoldable pub default_exchange : World → Bytes
  default_exchange w = value_or_nyse (sh.os_getenv w (codes "MARKET"))

  -- The exchange, and the arguments behind its name if it is given.
  unfoldable pub maybe_consume_exchange : World → List Bytes → Bytes × List Bytes
  unfolding default_exchange
  maybe_consume_exchange w [] = (default_exchange w, [])
  maybe_consume_exchange w (a ∷ args) =
      if sh.exchange_exists w a then (a, args) else (default_exchange w, a ∷ args)

  -- The wait for an instant, behind the test on 0.
  abbrev pub wait_then : ℕ → ℕ → List Bytes → World → Waited × World
  wait_then found target args w =
      if found == 0
      then (failed, w)
      else let (completed, w') = sh.wait_until_epoch target w in
        (if completed then handled args else failed, w')

  abbrev pub before_close : Bytes → List Bytes → World → Waited × World
  before_close exchange [] w = (failed, w)
  before_close exchange (a ∷ args) w = elim (parse_minutes a) [
    | none ↦ (failed, w)
    | some minutes ↦
        let close = sh.next_close_time w exchange in wait_then close (close - minutes * 60) args w
  ]

  unfoldable pub handle_market_wait_operator : List Bytes → World → Waited × World
  unfolding maybe_consume_exchange parse_minutes str_eq
  handle_market_wait_operator [] w = (not_an_operator, w)
  handle_market_wait_operator (op ∷ args) w =
      let (exchange, rest) = maybe_consume_exchange w args in
      let opens = sh.next_open_time w exchange in
      if str_eq op (codes "@next_open")
      then wait_then opens opens rest w
      else if str_eq op (codes "@before_close")
      then before_close exchange rest w
      else (not_an_operator, w)
