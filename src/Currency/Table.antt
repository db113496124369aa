-- ===== src/Currency/Table.antt =====
-- src/currency.c: loading the registry and looking a code up. A file is its bytes, `none` if it is not
-- readable; an outermost `none` is a read behind the end of a text (see `Registry.Json.walk`).
use mathlib.Core.Option
use las_shell.Prelude.{
  ℕ, zero, suc, Bytes, codes, length, drop, Bool, true, false, Option, none, some, List, [], ◌∷◌,
  ◌++◌, map, leb, ltb, if◌then◌else◌, ◌>>=◌,
}
use las_shell.CString.Libc.{toupper, strchr}
use las_shell.Registry.Json.{
  strstr, quoted_key, value_at, extract_str, next_array_object, truncate_before_countries,
}
use las_shell.Registry.Sort.{qsort_by}
use las_shell.Registry.Search.{binary_search}
use las_shell.Calendar.Load.{scan_int}

pub record Currency : Type 0 where
  pub code : Bytes
  pub numeric : Bytes
  pub name : Bytes
  pub minor_units : ℕ
  pub symbol : Bytes
  pub is_active : Bool

-- `g_table` with `g_count`, and `g_loaded`.
pub record State : Type 0 where
  pub table : List Currency
  pub loaded : Bool

-- `CURRENCY_MAX_ENTRIES`
abbrev pub max_entries : ℕ
max_entries = 512

-- The value of an integer field; `strtol` reads it as `%d` does. A negative value is not modelled.
unfoldable pub extract_int : Bytes → Bytes → Option ℕ
unfolding value_at scan_int
extract_int json key = value_at json key >>= λ p. Option.map (λ r. r.0) (scan_int p)

abbrev field : Bytes → Bytes → ℕ → Bytes
field obj key outlen = Option.get_or (extract_str obj key outlen) []

-- The entry that an object gives, without its code.
abbrev currency_of : Bytes → Bytes → Currency
currency_of obj code = record {
  code = map toupper code;
  numeric = field obj (codes "numeric") 4;
  name = field obj (codes "name") 64;
  minor_units = Option.get_or (extract_int obj (codes "minor_units")) 2;
  symbol = field obj (codes "symbol") 8;
  is_active = true;
}

abbrev push_currency : List Currency → Bytes → Option Bytes → List Currency
push_currency table obj none = table
push_currency table obj (some []) = table
push_currency table obj (some (c ∷ cs)) = table ++ (currency_of obj (c ∷ cs) ∷ [])

-- The body of the loop.
unfoldable pub add_currency : List Currency → Bytes → List Currency
unfolding truncate_before_countries extract_int
add_currency table obj =
    let short = truncate_before_countries obj in
    push_currency table short (extract_str short (codes "code") 8)

unfoldable pub load_currencies : ℕ → List Currency → Bytes → Option (List Currency)
load_currencies zero table cursor = none
load_currencies (suc fuel) table cursor =
    let next = next_array_object cursor >>= λ (found, cursor'). elim found [
      | none ↦ some table
      | some obj ↦ load_currencies fuel (add_currency table obj) cursor'
    ] in
    if ltb (length table) max_entries then next else some table

-- The `[` of `currencies.active`.
unfoldable pub find_active_array : Bytes → Option Bytes
unfolding strstr strchr
find_active_array json = do
  cur ← strstr json (quoted_key (codes "currencies"))
  act ← strstr cur (quoted_key (codes "active"))
  strchr act b'['

abbrev pub code_of : Currency → Bytes
code_of c = c.code

-- The table behind the call, and whether the result is 0; an empty table is not sorted.
abbrev pub load_array : Option Bytes → List Currency → Option (List Currency × Bool)
load_array none table = some (table, false)
load_array (some arr) table = load_currencies (suc (length arr)) [] (drop 1 arr) >>= λ loaded.
    some (qsort_by code_of loaded, ltb 0 (length loaded))

unfoldable pub load_from_file : Option Bytes → List Currency → Option (List Currency × Bool)
unfolding load_currencies find_active_array
load_from_file none table = some (table, false)
load_from_file (some json) table = load_array (find_active_array json) table

abbrev pub builtin_usd : Currency
builtin_usd = record {
  code = codes "USD";
  numeric = codes "840";
  name = codes "US Dollar";
  minor_units = 2;
  symbol = codes "$";
  is_active = true;
}

abbrev pub try_files : List (Option Bytes) → List Currency → Option State
try_files [] table = some (record { table = builtin_usd ∷ []; loaded = true })
try_files (file ∷ files) table = load_from_file file table >>= λ (table', good).
    (if good then some (record { table = table'; loaded = true }) else try_files files table')

-- The explicit path, the one below `$LAS_SHELL_HOME` and the installed one. The result is always 0.
unfoldable pub currency_init : Option Bytes → Option Bytes → Option Bytes → State → Option State
unfolding load_from_file
currency_init explicit home installed s = try_files (explicit ∷ home ∷ installed ∷ []) s.table

unfoldable pub currency_cleanup : State → State
currency_cleanup s = record { table = []; loaded = false }

-- A code of eight bytes or more does not fit `key`.
unfoldable pub currency_lookup : State → Bytes → Option Currency
currency_lookup s [] = none
currency_lookup s (c ∷ cs) =
    if s.loaded
    then (if leb 8 (length (c ∷ cs))
        then none
        else binary_search code_of s.table (map toupper (c ∷ cs)))
    else none

unfoldable pub currency_is_valid : State → Bytes → Bool
unfolding currency_lookup
currency_is_valid s code = elim (currency_lookup s code) [ none ↦ false | some c ↦ true ]
