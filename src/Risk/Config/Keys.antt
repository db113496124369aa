-- ===== src/Risk/Config/Keys.antt =====
-- The branches of the dispatch on a key.
use las_shell.Prelude.{◌≡◌, if◌then◌else◌, Bytes, true, String, codes, if_elim, if_both}
use las_shell.Prelude.Int.{ℤ}
use las_shell.CString.Libc.{str_eq}
use las_shell.Currency.Table.{State, currency_is_valid}
use las_shell.Risk.Text.{str_to_upper, safe_strncpy}
use las_shell.Risk.Config.{
  Numbers, RiskConfig, parse_symbol_list, parse_currency_list, set_symbols, set_currencies, set_key,
}

-- A property of the configuration behind a line, from the branches: an unknown key, the six numbers,
-- the two lists of symbols, a base currency that is valid, and the list of currencies.
pub set_key_elim {ℓ} :
    (nums : Numbers) (cur : State) (P : RiskConfig nums → Type ℓ) (ukey val : Bytes)
    (cfg : RiskConfig nums)
    → P cfg
    → ((a b c : nums.Double) (n : ℤ) (d e : nums.Double)
        → P (record cfg {
          max_position_size = a;
          min_position_size = b;
          max_order_notional = c;
          max_orders_per_day = n;
          max_drawdown_pct = d;
          max_daily_loss = e;
        }))
    → P (set_symbols nums cur (parse_symbol_list val) cfg)
    → P (record cfg { blocked_symbols = parse_symbol_list val })
    → (currency_is_valid cur val ≡ true
        → P (record cfg { base_currency = str_to_upper (safe_strncpy val 8) }))
    → P (set_currencies nums cur (parse_currency_list nums cur val) cfg)
    → P (set_key nums cur ukey val cfg)
unfolding set_key
set_key_elim nums cur P ukey val cfg same numbers allowed blocked base currencies =
    key "MAX_POSITION_SIZE" (numbers _ _ _ _ _ _) (
      key "MIN_POSITION_SIZE" (numbers _ _ _ _ _ _) (
        key "MAX_ORDER_NOTIONAL" (numbers _ _ _ _ _ _) (
          key "MAX_ORDERS_PER_DAY" (numbers _ _ _ _ _ _) (
            key "MAX_DRAWDOWN_PCT" (numbers _ _ _ _ _ _) (
              key "MAX_DAILY_LOSS" (numbers _ _ _ _ _ _) (
                key "ALLOWED_SYMBOLS" allowed (
                  key "BLOCKED_SYMBOLS" blocked (
                    key "BASE_CURRENCY" (if_elim P (currency_is_valid cur val) _ _ base (λ e. same))
                      (key "ALLOWED_CURRENCIES" currencies same)))))))))
  where
    key :
        (name : String) {x y : RiskConfig nums}
        → P x
        → P y
        → P (if str_eq ukey (codes name) then x else y)
    key name {x} {y} h k = if_both P (str_eq ukey (codes name)) x y h k
