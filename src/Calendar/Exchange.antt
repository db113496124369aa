-- ===== src/Calendar/Exchange.antt =====
-- src/calendar.c: the table of exchanges, the names of exchanges and the holidays of one. A time that
-- may be missing, -1 in the source, is an `Option` of minutes since midnight; a session that has a
-- `has_` flag and two times is an `Option` of the two.
use las_shell.Prelude.{
  ℕ, Bytes, codes, length, Bool, true, false, Option, none, some, List, [], ◌∷◌, map, leb,
  if◌then◌else◌,
}
use las_shell.CString.Libc.{toupper, str_eq}
use las_shell.Registry.Sort.{find_key}
use las_shell.Registry.Search.{binary_search}

pub record HolidayEntry : Type 0 where
  pub date : Bytes
  pub is_closed : Bool
  pub early_close_min : Option ℕ

pub record Exchange : Type 0 where
  pub code : Bytes
  pub name : Bytes
  pub timezone : Bytes
  pub regular_open_min : ℕ
  pub regular_close_min : ℕ
  pub pre : Option (ℕ × ℕ)
  pub after : Option (ℕ × ℕ)
  pub lunch : Option (ℕ × ℕ)
  pub holidays : List HolidayEntry
  pub gen_range_start : Bytes
  pub gen_range_end : Bytes

-- `g_exchanges` with `g_exchange_count`, and `g_loaded`.
pub record Registry : Type 0 where
  pub exchanges : List Exchange
  pub loaded : Bool

-- `g_aliases`
unfoldable pub exchange_aliases : List (Bytes × Bytes)
exchange_aliases =
    (codes "NYSE", codes "XNYS")
    ∷ (codes "NASDAQ", codes "XNAS")
    ∷ (codes "LSE", codes "XLON")
    ∷ (codes "LONDON", codes "XLON")
    ∷ (codes "TOKYO", codes "XTKS")
    ∷ (codes "TSX", codes "XTSE")
    ∷ (codes "TORONTO", codes "XTSE")
    ∷ (codes "HKEX", codes "XHKG")
    ∷ (codes "HONGKONG", codes "XHKG")
    ∷ (codes "SSE", codes "XSHG")
    ∷ (codes "SHANGHAI", codes "XSHG")
    ∷ (codes "SGX", codes "XSES")
    ∷ (codes "SINGAPORE", codes "XSES")
    ∷ (codes "KRX", codes "XKRX")
    ∷ (codes "EURONEXT_PARIS", codes "XPAR")
    ∷ (codes "PARIS", codes "XPAR")
    ∷ (codes "XETRA", codes "XETR")
    ∷ (codes "FRANKFURT", codes "XETR")
    ∷ (codes "ASX", codes "XASX")
    ∷ (codes "SYDNEY", codes "XASX")
    ∷ (codes "SIX", codes "XSWX")
    ∷ (codes "ZURICH", codes "XSWX")
    ∷ (codes "BSE", codes "XBOM")
    ∷ (codes "NSE", codes "XNSE")
    ∷ []

unfoldable pub mic_of : Bytes → List (Bytes × Bytes) → Bytes
mic_of up [] = up
mic_of up ((alias_name, mic) ∷ rest) = if str_eq up alias_name then mic else mic_of up rest

unfoldable pub find_code : Bytes → List Exchange → Option Exchange
find_code code xs = find_key (λ ex. ex.code) code xs

-- The scan of the table for the code that the name stands for: its alias's, or the name itself.
unfoldable pub resolve_exchange : Registry → Bytes → Option Exchange
resolve_exchange r [] = none
resolve_exchange r (c ∷ cs) =
    if r.loaded
    then (if leb 32 (length (c ∷ cs))
        then none
        else find_code (mic_of (map toupper (c ∷ cs)) exchange_aliases) r.exchanges)
    else none

unfoldable pub find_holiday : Exchange → Bytes → Option HolidayEntry
find_holiday ex date = binary_search (λ h. h.date) ex.holidays date

unfoldable pub calendar_exchange_exists : Registry → Bytes → Bool
calendar_exchange_exists r name = elim (resolve_exchange r name) [ none ↦ false | some ex ↦ true ]
