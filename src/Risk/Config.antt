-- ===== src/Risk/Config.antt =====
-- src/risk_config.c: `RiskConfig`, its defaults and `parse_config_file`. The numbers of type
-- `double` are the C language's: an interface with the operations that the code uses of them. The
-- messages on the standard error are left out.
pub mod Keys
pub mod Symbols
pub mod Invariant
use las_shell.Prelude.{
  ℕ, zero, suc, ◌+◌, Bytes, codes, length, take, drop, Bool, true, false, ◌&&◌, Option, none, some,
  List, [], ◌∷◌, ltb, ◌==◌, if◌then◌else◌, peek, ◌-◌,
}
use las_shell.Prelude.Int.{ℤ, pos}
use las_shell.CString.Libc.{str_eq, strchr}
use las_shell.Alias.File.{read_line}
use las_shell.Currency.Table.{State, currency_is_valid}
use las_shell.Risk.Text.{trim_ws, str_to_upper, safe_strncpy, strtok_all}

-- `double`, `atof` and `atoi`. Nothing is assumed of them; a comparison with a NaN is false.
pub record Numbers : Type 1 where
  pub Double : Type 0
  pub of_ℕ : ℕ → Double
  pub lt : Double → Double → Bool
  pub le : Double → Double → Bool
  pub mul : Double → Double → Double
  pub fabs : Double → Double
  pub atof : Bytes → Double
  pub atoi : Bytes → ℤ

-- `RISK_MAX_SYMBOLS`, `RISK_SYMBOL_LEN`, `RISK_MAX_CURRENCIES`
abbrev pub max_symbols : ℕ
max_symbols = 256

abbrev pub symbol_len : ℕ
symbol_len = 32

abbrev pub max_currencies : ℕ
max_currencies = 64

abbrev pub is_empty : Bytes → Bool
is_empty [] = true
is_empty (c ∷ cs) = false

-- The tokens of a symbol list, as far as there is room.
unfoldable pub symbols_from : ℕ → List Bytes → List Bytes
unfolding trim_ws str_to_upper
symbols_from zero toks = []
symbols_from (suc room) [] = []
symbols_from (suc room) (tok ∷ toks) =
    let sym = trim_ws tok in
    if is_empty sym
    then symbols_from (suc room) toks
    else safe_strncpy (str_to_upper sym) symbol_len ∷ symbols_from room toks

unfoldable pub parse_symbol_list : Bytes → List Bytes
unfolding symbols_from strtok_all
parse_symbol_list val =
    symbols_from max_symbols (strtok_all (λ c. c == b',') (safe_strncpy val 4096))

module _ (nums : Numbers) where
  -- `has_allowed_list` and `has_allowed_currencies` with the lists that they are about.
  pub record RiskConfig : Type 0 where
    pub max_position_size : nums.Double
    pub min_position_size : nums.Double
    pub max_order_notional : nums.Double
    pub max_orders_per_day : ℤ
    pub max_drawdown_pct : nums.Double
    pub max_daily_loss : nums.Double
    pub has_allowed_list : Bool
    pub allowed_symbols : List Bytes
    pub blocked_symbols : List Bytes
    pub base_currency : Bytes
    pub has_allowed_currencies : Bool
    pub allowed_currencies : List Bytes
    pub loaded : Bool
    pub config_path : Bytes

  unfoldable pub set_defaults : RiskConfig
  set_defaults = record {
    max_position_size = nums.of_ℕ 10000;
    min_position_size = nums.of_ℕ 1;
    max_order_notional = nums.of_ℕ 1000000;
    max_orders_per_day = pos 500;
    max_drawdown_pct = nums.of_ℕ 10;
    max_daily_loss = nums.of_ℕ 50000;
    has_allowed_list = false;
    allowed_symbols = [];
    blocked_symbols = [];
    base_currency = [];
    has_allowed_currencies = false;
    allowed_currencies = [];
    loaded = false;
    config_path = [];
  }

module _ (nums : Numbers) (cur : State) where
  -- The valid codes of ALLOWED_CURRENCIES, as far as there is room.
  unfoldable pub currencies_from : ℕ → List Bytes → List Bytes
  unfolding trim_ws str_to_upper currency_is_valid
  currencies_from zero toks = []
  currencies_from (suc room) [] = []
  currencies_from (suc room) (tok ∷ toks) =
      let sym = trim_ws tok in
      if is_empty sym
      then currencies_from (suc room) toks
      else if currency_is_valid cur sym
      then str_to_upper (safe_strncpy sym 8) ∷ currencies_from room toks
      else currencies_from (suc room) toks

  unfoldable pub parse_currency_list : Bytes → List Bytes
  unfolding currencies_from strtok_all
  parse_currency_list val =
      currencies_from max_currencies (strtok_all (λ c. c == b',') (safe_strncpy val 1024))

  abbrev pub set_symbols : List Bytes → RiskConfig nums → RiskConfig nums
  set_symbols syms cfg = record cfg {
    allowed_symbols = syms;
    has_allowed_list = ltb 0 (length syms);
  }

  abbrev pub set_currencies : List Bytes → RiskConfig nums → RiskConfig nums
  set_currencies codes cfg = record cfg {
    allowed_currencies = codes;
    has_allowed_currencies = ltb 0 (length codes);
  }

  -- The dispatch on the key.
  unfoldable pub set_key : Bytes → Bytes → RiskConfig nums → RiskConfig nums
  unfolding str_eq parse_symbol_list parse_currency_list str_to_upper
  set_key ukey val cfg =
      if str_eq ukey (codes "MAX_POSITION_SIZE")
      then record cfg { max_position_size = nums.atof val }
      else if str_eq ukey (codes "MIN_POSITION_SIZE")
      then record cfg { min_position_size = nums.atof val }
      else if str_eq ukey (codes "MAX_ORDER_NOTIONAL")
      then record cfg { max_order_notional = nums.atof val }
      else if str_eq ukey (codes "MAX_ORDERS_PER_DAY")
      then record cfg { max_orders_per_day = nums.atoi val }
      else if str_eq ukey (codes "MAX_DRAWDOWN_PCT")
      then record cfg { max_drawdown_pct = nums.atof val }
      else if str_eq ukey (codes "MAX_DAILY_LOSS")
      then record cfg { max_daily_loss = nums.atof val }
      else if str_eq ukey (codes "ALLOWED_SYMBOLS")
      then set_symbols (parse_symbol_list val) cfg
      else if str_eq ukey (codes "BLOCKED_SYMBOLS")
      then record cfg { blocked_symbols = parse_symbol_list val }
      else if str_eq ukey (codes "BASE_CURRENCY")
      then (if currency_is_valid cur val
          then record cfg { base_currency = str_to_upper (safe_strncpy val 8) }
          else cfg)
      else if str_eq ukey (codes "ALLOWED_CURRENCIES")
      then set_currencies (parse_currency_list val) cfg
      else cfg

  abbrev pub key_value : Bytes → Option Bytes → RiskConfig nums → RiskConfig nums
  key_value p none cfg = cfg
  key_value p (some eq) cfg =
      let key = trim_ws (take (length p - length eq) p) in
      set_key (str_to_upper (safe_strncpy key 128)) (trim_ws (drop 1 eq)) cfg

  -- The body of the loop over the lines.
  unfoldable pub parse_line : Bytes → RiskConfig nums → RiskConfig nums
  unfolding trim_ws set_key strchr
  parse_line line cfg =
      let p = trim_ws line in
      if is_empty p then cfg else if peek p == b'#' then cfg else key_value p (strchr p b'=') cfg

  -- The loop, on fuel; each `fgets` reads a byte at least.
  unfoldable pub parse_lines : ℕ → Bytes → RiskConfig nums → RiskConfig nums
  unfolding parse_line read_line
  parse_lines zero s cfg = cfg
  parse_lines (suc fuel) [] cfg = cfg
  parse_lines (suc fuel) (c ∷ cs) cfg =
      let (line, rest) = read_line 1023 (c ∷ cs) in parse_lines fuel rest (parse_line line cfg)

  -- The file, `none` if it cannot be opened, and whether the result is 0.
  unfoldable pub parse_config_file : Option Bytes → RiskConfig nums → RiskConfig nums × Bool
  unfolding parse_lines
  parse_config_file none cfg = (cfg, false)
  parse_config_file (some text) cfg = (parse_lines (suc (length text)) text cfg, true)
