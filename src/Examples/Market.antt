-- ===== src/Examples/Market.antt =====
-- The registries' reader and tables at concrete inputs.
use las_shell.Prelude.{
  String, ◌<◌, ◌≤◌, Bytes, codes, Bool, true, false, none, some, List, [], ◌∷◌, ◌++◌, ◌⊎◌, ◌≡◌,
  refl, arith,
}
use las_shell.CString.Libc.{str_eq}
use las_shell.Registry.Json.{next_array_object}
use las_shell.Registry.Walk.{is_gap, Body, StringBody, next_array_object-Body}
use las_shell.Registry.Sort.{Unique, qsort_by, find_key}
use las_shell.Registry.Search.{binary_search, binary_search-qsort_by}
use las_shell.Calendar.Exchange.{HolidayEntry, Exchange}
use las_shell.Calendar.Load.{put_holiday, max_holidays}
use las_shell.Calendar.Holidays.{date_of, find_date, IsCalendar, put_holiday-find}
use las_shell.Currency.Table.{Currency, builtin_usd}
use las_shell.Examples.Data.{only}

-- `{"a":[1]}` with a string that holds a bracket.
abbrev body : Bytes
body = codes "\"}\":[1]"

body-Body : Body body
body-Body = Body.string (codes "}") (codes ":[1]") (StringBody.byte refl refl StringBody.end) (
    Body.plain refl refl refl (
      Body.nested b'[' b']' (codes "1") [] refl refl refl (Body.plain refl refl refl Body.nil)
        Body.nil))

next_array_object-Body_example :
    next_array_object (codes "[ " ++ (b'{' ∷ (body ++ (b'}' ∷ codes ", {}]"))))
    ≡ some (some (codes "{\"}\":[1]}"), codes ", {}]")
next_array_object-Body_example =
    next_array_object-Body (codes "[ ") body (codes ", {}]") (only is_gap (codes "[ ") refl)
      body-Body

abbrev day : String → Bool → HolidayEntry
day d closed = record { date = codes d; is_closed = closed; early_close_min = none }

abbrev days : List HolidayEntry
days = day "2026-12-25" true ∷ day "2026-01-01" true ∷ []

days-Unique : Unique date_of days
unfolding str_eq
days-Unique = ((refl, tt), (tt, tt))

binary_search-qsort_by_example :
    binary_search date_of (qsort_by date_of days) (codes "2026-01-01")
    ≡ find_key date_of (codes "2026-01-01") days
binary_search-qsort_by_example =
    binary_search-qsort_by date_of days (codes "2026-01-01") days-Unique

put_holiday-find_example :
    ((true ≡ true) ⊎ (2 < max_holidays)
      → find_date (codes "2026-12-25") (put_holiday (day "2026-12-25" false) days)
        ≡ some (day "2026-12-25" false))
    × (true ≡ false → max_holidays ≤ 2 → put_holiday (day "2026-12-25" false) days ≡ days)
unfolding str_eq
put_holiday-find_example = put_holiday-find (day "2026-12-25" false) (codes "2026-12-25") days

no_days-IsCalendar : IsCalendar []
no_days-IsCalendar = record { unique = tt; bounded = omega arith }

-- An array with one exchange, behind its opening bracket.
abbrev one_exchange : Bytes
one_exchange = codes "{\"code\":\"XPAR\",\"timezone\":\"Europe/Paris\"}]"

abbrev paris : Exchange
paris = record {
  code = codes "XPAR";
  name = codes "Euronext Paris";
  timezone = codes "Europe/Paris";
  regular_open_min = 540;
  regular_close_min = 1050;
  pre = none;
  after = none;
  lunch = none;
  holidays = day "2026-01-01" true ∷ day "2026-12-25" true ∷ [];
  gen_range_start = [];
  gen_range_end = [];
}

abbrev euro : Currency
euro = record {
  code = codes "EUR";
  numeric = codes "978";
  name = codes "Euro";
  minor_units = 2;
  symbol = codes "E";
  is_active = true;
}

abbrev currencies : List Currency
currencies = builtin_usd ∷ euro ∷ []
