-- ===== src/Calendar/Load.antt =====
-- src/calendar.c: loading the registry file. The outermost `Option` of a result is `none` where the
-- code reads behind the end of a text (see `Registry.Json.walk`). A file is its bytes, `none` if it is
-- not readable.
use mathlib.Core.Option
use las_shell.Prelude.{
  ℕ, zero, suc, ◌+◌, ◌-◌, ◌*◌, Bytes, codes, length, drop, Bool, false, ◌&&◌, ◌||◌, Option, none,
  some, List, [], ◌∷◌, ◌++◌, leb, ◌==◌, if◌then◌else◌, ◌>>=◌,
}
use las_shell.CString.Libc.{str_eq}
use las_shell.Registry.Json.{extract_str, next_array_object}
use las_shell.Calendar.Exchange.{HolidayEntry}

abbrev is_digit : ℕ → Bool
is_digit c = leb b'0' c && leb c b'9'

unfoldable pub skip_white : Bytes → Bytes
skip_white [] = []
skip_white (c ∷ cs) = if leb 9 c && leb c 13 || c == b' ' then skip_white cs else c ∷ cs

-- The value of the leading digits, and what follows them.
unfoldable pub digits_from : ℕ → Bytes → ℕ × Bytes
digits_from acc [] = (acc, [])
digits_from acc (c ∷ cs) =
    let rest = digits_from (acc * 10 + (c - b'0')) cs in if is_digit c then rest else (acc, c ∷ cs)

-- `%d` of `sscanf`, for a number without a minus sign that fits an `int`.
unfoldable pub scan_unsigned : Bytes → Option (ℕ × Bytes)
unfolding digits_from
scan_unsigned [] = none
scan_unsigned (c ∷ cs) = if is_digit c then some (digits_from 0 (c ∷ cs)) else none

abbrev skip_plus : Bytes → Bytes
skip_plus [] = []
skip_plus (c ∷ cs) = if c == b'+' then cs else c ∷ cs

unfoldable pub scan_int : Bytes → Option (ℕ × Bytes)
unfolding skip_white scan_unsigned
scan_int s = scan_unsigned (skip_plus (skip_white s))

-- A literal byte of a `sscanf` format.
unfoldable pub scan_byte : ℕ → Bytes → Option Bytes
scan_byte b [] = none
scan_byte b (c ∷ cs) = if c == b then some cs else none

abbrev zero_only : ℕ × Bytes → Option (ℕ × Bytes)
zero_only (n, r) = if n == 0 then some (n, r) else none

abbrev scan_sign : Bytes → Option (ℕ × Bytes)
scan_sign [] = none
scan_sign (c ∷ cs) =
    if c == b'-' then scan_unsigned cs >>= zero_only else scan_unsigned (skip_plus (c ∷ cs))

-- `%d` where a negative number is rejected: behind a minus sign only 0 is left.
unfoldable scan_natural : Bytes → Option (ℕ × Bytes)
unfolding skip_white scan_unsigned
scan_natural s = scan_sign (skip_white s)

-- Each number is tested for being negative where it is read; the result is -1, here `none`, whatever
-- follows it.
unfoldable pub parse_hhmm : Bytes → Option ℕ
unfolding scan_natural scan_byte
parse_hhmm s = do
  (h, r) ← scan_natural s
  r' ← scan_byte b':' r
  (m, end) ← scan_natural r'
  if leb h 23 && leb m 59 then some (h * 60 + m) else none

-- A field that keeps its default "" when it is missing.
abbrev pub field : Bytes → Bytes → ℕ → Bytes
field obj key outlen = Option.get_or (extract_str obj key outlen) []

-- `CAL_MAX_HOLIDAYS`
abbrev pub max_holidays : ℕ
max_holidays = 128

abbrev pub has_date : Bytes → List HolidayEntry → Bool
has_date date [] = false
has_date date (h ∷ hs) = str_eq h.date date || has_date date hs

unfoldable pub replace_holiday : HolidayEntry → List HolidayEntry → List HolidayEntry
replace_holiday e [] = []
replace_holiday e (h ∷ hs) = if str_eq h.date e.date then e ∷ hs else h ∷ replace_holiday e hs

unfoldable pub put_holiday : HolidayEntry → List HolidayEntry → List HolidayEntry
unfolding replace_holiday
put_holiday e hs =
    if has_date e.date hs
    then replace_holiday e hs
    else if leb max_holidays (length hs)
    then hs
    else hs ++ (e ∷ [])

unfoldable pub holiday_of : Bytes → HolidayEntry
unfolding parse_hhmm
holiday_of obj =
    let status = field obj (codes "status") 16 in
    record {
      date = field obj (codes "date") 11;
      is_closed = str_eq status (codes "closed");
      early_close_min =
          if str_eq status (codes "early_close")
          then parse_hhmm (field obj (codes "early_close_time") 8)
          else none;
    }

abbrev pub put_unless_empty : Bytes → HolidayEntry → List HolidayEntry → List HolidayEntry
put_unless_empty [] e hs = hs
put_unless_empty (c ∷ cs) e hs = put_holiday e hs

unfoldable pub add_holiday : List HolidayEntry → Bytes → List HolidayEntry
unfolding holiday_of put_holiday
add_holiday hs obj = put_unless_empty (holiday_of obj).date (holiday_of obj) hs

-- The loops `while ((obj = next_array_object(&cursor)) != NULL)`, on fuel.
module _ {ℓ} {S : Type ℓ} (body : S → Bytes → S) where
  unfoldable pub each_object : ℕ → S → Bytes → Option S
  each_object zero state cursor = none
  each_object (suc fuel) state cursor = next_array_object cursor >>= λ (found, cursor').
      elim found [ none ↦ some state | some obj ↦ each_object fuel (body state obj) cursor' ]

-- `arr_block + 1`, walked to the end.
unfoldable pub parse_holiday_array : List HolidayEntry → Option Bytes → Option (List HolidayEntry)
unfolding each_object add_holiday
parse_holiday_array hs none = some hs
parse_holiday_array hs (some arr) = each_object add_holiday (suc (length arr)) hs (drop 1 arr)
