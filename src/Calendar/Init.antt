-- ===== src/Calendar/Init.antt =====
-- src/calendar.c: `load_one_exchange`, `load_from_file`, the fallback and `calendar_init`.
use las_shell.Prelude.{
  ℕ, zero, suc, Bytes, peek, codes, length, drop, Bool, true, false, not, ◌||◌, Option, none, some,
  List, [], ◌∷◌, ◌++◌, leb, ltb, ◌==◌, if◌then◌else◌, ◌>>=◌,
}
use las_shell.CString.Libc.{str_eq, strchr}
use las_shell.InputParser.{span_limit}
use las_shell.Registry.Json.{extract_str, extract_block, next_array_object}
use las_shell.Registry.Sort.{qsort_by}
use las_shell.Calendar.Exchange.{HolidayEntry, Exchange, Registry}
use las_shell.Calendar.Load.{parse_hhmm, field, parse_holiday_array, each_object}

-- `CAL_MAX_EXCHANGES`
abbrev pub max_exchanges : ℕ
max_exchanges = 64

abbrev pub both : Option ℕ → Option ℕ → Option (ℕ × ℕ)
both (some o) (some c) = some (o, c)
both _ _ = none

-- The `open` and `close` of a block, if both are times.
unfoldable pub hours_of : Bytes → Option (ℕ × ℕ)
unfolding parse_hhmm
hours_of block =
    both (parse_hhmm (field block (codes "open") 6)) (parse_hhmm (field block (codes "close") 6))

-- A session that is missing when its block is.
abbrev pub session : Option Bytes → Option (ℕ × ℕ)
session none = none
session (some block) = hours_of block

-- The regular hours: `memset` has put 0 where there is no block.
abbrev pub regular_hours : Option Bytes → Option (ℕ × ℕ)
regular_hours none = some (0, 0)
regular_hours (some block) = hours_of block

abbrev pub sub_block : Option Bytes → Bytes → Option (Option Bytes)
sub_block none key = some none
sub_block (some block) key = extract_block block key

-- The body of the loop over `sessions`.
unfoldable pub add_session : Option (ℕ × ℕ) → Bytes → Option (ℕ × ℕ)
unfolding hours_of
add_session lunch obj =
    if str_eq (field obj (codes "type") 16) (codes "lunch_break") then hours_of obj else lunch

abbrev pub lunch_of : Option Bytes → Option (Option (ℕ × ℕ))
lunch_of none = some none
lunch_of (some arr) = each_object add_session (suc (length arr)) none (drop 1 arr)

unfoldable pub skip_range_blanks : Bytes → Bytes
skip_range_blanks [] = []
skip_range_blanks (c ∷ cs) = if c == b' ' || c == b'\n' then skip_range_blanks cs else c ∷ cs

-- One of the two quoted dates, and where its scan stopped.
abbrev pub range_date : Bytes → Bytes × Bytes
range_date p =
    let q = skip_range_blanks p in
    if peek q == b'"' then span_limit (λ c. not (c == b'"')) 10 (drop 1 q) else ([], q)

abbrev pub range_end : Option Bytes → Bytes
range_end none = []
range_end (some comma) = (range_date (drop 1 comma)).0

abbrev pub range_of : Option Bytes → Bytes × Bytes
range_of none = ([], [])
range_of (some block) =
    let (start, p) = range_date (drop 1 block) in (start, range_end (strchr p b','))

-- The explicit holidays, then the generated ones, then the ad hoc closures.
unfoldable pub merged_holidays : Bytes → Option (List HolidayEntry)
merged_holidays obj = do
  holidays_obj ← extract_block obj (codes "holidays")
  explicit_arr ← sub_block holidays_obj (codes "explicit")
  generated_arr ← sub_block holidays_obj (codes "generated")
  h₁ ← parse_holiday_array [] explicit_arr
  h₂ ← parse_holiday_array h₁ generated_arr
  adhoc_arr ← extract_block obj (codes "ad_hoc_closures")
  parse_holiday_array h₂ adhoc_arr

-- The whole of the object is read; a holiday list that is sorted last is searched by `find_holiday`.
abbrev pub build : Bytes → Bytes → ℕ × ℕ → Bytes → Option Exchange
build code timezone (opens, closes) obj = do
  xh ← extract_block obj (codes "extended_hours")
  pm ← sub_block xh (codes "pre_market")
  ah ← sub_block xh (codes "after_hours")
  sessions ← extract_block obj (codes "sessions")
  lunch ← lunch_of sessions
  hs ← merged_holidays obj
  gr ← extract_block obj (codes "generation_range")
  some (record {
    code = code;
    name = field obj (codes "name") 128;
    timezone = timezone;
    regular_open_min = opens;
    regular_close_min = closes;
    pre = session pm;
    after = session ah;
    lunch = lunch;
    holidays = qsort_by (λ h. h.date) hs;
    gen_range_start = (range_of gr).0;
    gen_range_end = (range_of gr).1;
  })

abbrev pub build_with_hours :
    Bytes → Bytes → Option (ℕ × ℕ) → Bytes → List Exchange → Option (List Exchange)
build_with_hours code timezone none obj xs = some xs
build_with_hours code timezone (some hours) obj xs =
    build code timezone hours obj >>= λ ex. some (xs ++ (ex ∷ []))

abbrev pub load_coded : Option Bytes → Bytes → List Exchange → Option (List Exchange)
load_coded none obj xs = some xs
load_coded (some code) obj xs =
    let timezone = field obj (codes "timezone") 64 in
    if ltb 0 (length timezone)
    then (extract_block obj (codes "regular_hours") >>= λ rh.
        build_with_hours code timezone (regular_hours rh) obj xs)
    else some xs

unfoldable pub load_one_exchange : List Exchange → Bytes → Option (List Exchange)
load_one_exchange xs obj =
    if leb max_exchanges (length xs)
    then some xs
    else load_coded (extract_str obj (codes "code") 8) obj xs

-- The loop of `load_from_file`, which also stops when the table is full.
unfoldable pub load_exchanges : ℕ → List Exchange → Bytes → Option (List Exchange)
unfolding load_one_exchange
load_exchanges zero xs cursor = none
load_exchanges (suc fuel) xs cursor =
    let next = next_array_object cursor >>= λ (found, cursor'). elim found [
      | none ↦ some xs
      | some obj ↦ load_one_exchange xs obj >>= λ xs'. load_exchanges fuel xs' cursor'
    ] in
    if ltb (length xs) max_exchanges then next else some xs

-- The table behind the call, and whether the result is 0.
abbrev pub load_array : Option Bytes → List Exchange → Option (List Exchange × Bool)
load_array none xs = some (xs, false)
load_array (some arr) xs = load_exchanges (suc (length arr)) [] (drop 1 arr) >>= λ loaded.
    some (loaded, ltb 0 (length loaded))

unfoldable pub load_from_file : Option Bytes → List Exchange → Option (List Exchange × Bool)
unfolding load_exchanges
load_from_file none xs = some (xs, false)
load_from_file (some json) xs = extract_block json (codes "exchanges") >>= λ arr. load_array arr xs

abbrev pub builtin_nyse : Exchange
builtin_nyse = record {
  code = codes "XNYS";
  name = codes "New York Stock Exchange";
  timezone = codes "America/New_York";
  regular_open_min = 570;
  regular_close_min = 960;
  pre = some (240, 570);
  after = some (960, 1200);
  lunch = none;
  holidays = [];
  gen_range_start = [];
  gen_range_end = [];
}

-- The files are tried one after the other; each leaves its mark on the table.
abbrev pub try_files : List (Option Bytes) → List Exchange → Option Registry
try_files [] xs = some (record { exchanges = builtin_nyse ∷ []; loaded = true })
try_files (file ∷ files) xs = load_from_file file xs >>= λ (xs', good).
    (if good then some (record { exchanges = xs'; loaded = true }) else try_files files xs')

-- The explicit path, the one below `$LAS_SHELL_HOME` and the installed one. The result is always 0.
unfoldable pub calendar_init :
    Option Bytes → Option Bytes → Option Bytes → Registry → Option Registry
unfolding load_from_file
calendar_init explicit home installed r = try_files (explicit ∷ home ∷ installed ∷ []) r.exchanges

unfoldable pub calendar_cleanup : Registry → Registry
calendar_cleanup r = record { exchanges = []; loaded = false }
