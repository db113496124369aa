-- ===== src/Risk/Order.antt =====
-- src/risk_config.c: `parse_order_line` and `validate_order_against_risk`. The text of the reason is
-- left out of the result.
pub mod Gate
pub mod Fields
use mathlib.Core.Option
use las_shell.Prelude.{
  ℕ, Bytes, codes, peek, Bool, true, false, not, ◌&&◌, ◌||◌, Option, none, some, List, [], ◌∷◌,
  ◌==◌, if◌then◌else◌,
}
use las_shell.CString.Libc.{str_eq}
use las_shell.Risk.Text.{trim_front, str_to_upper, safe_strncpy, strtok_all}
use las_shell.Risk.Config.{Numbers, RiskConfig, symbol_len, is_empty}

-- `RISK_PASS` and the codes of the limits.
pub data RiskCode : Type 0 where
  pass err_symbol err_size err_notional err_drawdown err_daily_loss : RiskCode

abbrev pub is_blank : ℕ → Bool
is_blank c = c == b' ' || c == b'\t' || c == b'\r' || c == b'\n'

-- `strcmp` with each symbol of a list.
unfoldable pub is_listed : List Bytes → Bytes → Bool
unfolding str_eq
is_listed [] upper = false
is_listed (s ∷ ss) upper = str_eq s upper || is_listed ss upper

module _ (nums : Numbers) where
  open nums use {Double, of_ℕ, lt, le, mul, atof}

  pub record RiskResult : Type 0 where
    pub code : RiskCode
    pub field : Bytes
    pub limit_value : Double
    pub actual_value : Double

  pub record ParsedOrder : Type 0 where
    pub symbol : Bytes
    pub action : Bytes
    pub size : Double
    pub price : Double
    pub notional : Double

  abbrev pub zero_number : Double
  zero_number = of_ℕ 0

  abbrev pub number_or_zero : Option Bytes → Double
  number_or_zero none = zero_number
  number_or_zero (some s) = atof s

  abbrev sized_order : Bytes → Bytes → Double → Double → ParsedOrder
  sized_order symbol action size price = record {
    symbol = symbol;
    action = action;
    size = size;
    price = price;
    notional = if lt zero_number size && lt zero_number price then mul size price else zero_number;
  }

  abbrev second : List Bytes → Option Bytes
  second [] = none
  second (a ∷ []) = none
  second (a ∷ b ∷ rest) = some b

  abbrev first : List Bytes → Option Bytes
  first [] = none
  first (a ∷ rest) = some a

  abbrev pub order_symbol : Bytes → Bytes
  order_symbol s = str_to_upper (safe_strncpy s symbol_len)

  -- The tokens SYMBOL ACTION SIZE PRICE; a symbol alone is an order to buy without a size.
  abbrev pub order_of : List Bytes → Option ParsedOrder
  order_of [] = none
  order_of (symbol ∷ []) = some (record {
    symbol = order_symbol symbol;
    action = codes "BUY";
    size = zero_number;
    price = zero_number;
    notional = zero_number;
  })
  order_of (symbol ∷ action ∷ rest) = some (
      sized_order (order_symbol symbol) (str_to_upper (safe_strncpy action 16))
        (number_or_zero (first rest)) (number_or_zero (second rest)))

  -- `none` is a blank line, a comment, or a line without a token.
  unfoldable pub parse_order_line : Bytes → Option ParsedOrder
  unfolding trim_front str_to_upper strtok_all
  parse_order_line line =
      let p = trim_front line in
      if is_empty p
      then none
      else if peek p == b'#'
      then none
      else order_of (strtok_all is_blank (safe_strncpy p 512))

  unfoldable pub symbol_is_allowed : RiskConfig nums → Bytes → Bool
  unfolding is_listed str_to_upper
  symbol_is_allowed cfg sym =
      if not cfg.has_allowed_list
      then true
      else is_listed cfg.allowed_symbols (str_to_upper (safe_strncpy sym symbol_len))

  unfoldable pub symbol_is_blocked : RiskConfig nums → Bytes → Bool
  unfolding is_listed str_to_upper
  symbol_is_blocked cfg sym =
      is_listed cfg.blocked_symbols (str_to_upper (safe_strncpy sym symbol_len))

  abbrev pub passed : RiskResult
  passed = record { code = pass; field = []; limit_value = zero_number; actual_value = zero_number }

  abbrev pub rejected : RiskCode → Bytes → Double → Double → RiskResult
  rejected code field limit actual = record {
    code = code;
    field = field;
    limit_value = limit;
    actual_value = actual;
  }

  -- The checks on an order that was parsed, up to the first that fails.
  unfoldable pub check_order : RiskConfig nums → ParsedOrder → RiskResult
  check_order cfg order =
      let sized = lt zero_number order.size in
      if symbol_is_blocked cfg order.symbol
      then rejected err_symbol (codes "BLOCKED_SYMBOLS") zero_number zero_number
      else if not (symbol_is_allowed cfg order.symbol)
      then rejected err_symbol (codes "ALLOWED_SYMBOLS") zero_number zero_number
      else if sized && lt order.size cfg.min_position_size
      then rejected err_size (codes "MIN_POSITION_SIZE") cfg.min_position_size order.size
      else if sized && lt cfg.max_position_size order.size
      then rejected err_size (codes "MAX_POSITION_SIZE") cfg.max_position_size order.size
      else if sized && le order.price zero_number
      then rejected err_notional (codes "MAX_ORDER_NOTIONAL") cfg.max_order_notional zero_number
      else if lt zero_number order.notional && lt cfg.max_order_notional order.notional
      then rejected err_notional (codes "MAX_ORDER_NOTIONAL") cfg.max_order_notional order.notional
      else passed

  abbrev pub check_parsed : RiskConfig nums → Option ParsedOrder → RiskResult
  check_parsed cfg none = passed
  check_parsed cfg (some order) = check_order cfg order

  -- `g_risk_loaded`, `g_risk_cfg` and the line.
  unfoldable pub validate_order_against_risk : Bool → RiskConfig nums → Bytes → RiskResult
  validate_order_against_risk risk_loaded cfg line =
      if not risk_loaded then passed else check_parsed cfg (parse_order_line line)
