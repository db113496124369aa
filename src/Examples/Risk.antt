-- ===== src/Examples/Risk.antt =====
-- The risk configuration (src/risk_config.c) at concrete inputs, with whole numbers for `double`.
use las_shell.Risk.Order.{symbol_is_allowed}
use las_shell.Risk.Order.{symbol_is_blocked}
use las_shell.Risk.Order.{check_order}
use las_shell.Environment.Getenv.{is_entry_of}
use las_shell.Registry.Search.{binary_search}
use las_shell.Prelude.{
  ℕ, ◌+◌, ◌-◌, ◌*◌, ◌≡◌, ◌↔◌, inl, inr, refl, Bytes, codes, Bool, true, false, not, ◌==◌, ◌&&◌,
  Option, some, [], ◌∷◌, ltb, leb, arith, if◌then◌else◌,
}
use las_shell.Prelude.Int.{pos}
use las_shell.CString.Libc.{str_eq, str_eq_iff}
use las_shell.Currency.Table.{State, builtin_usd}
use las_shell.Environment.Getenv.{my_getenv}
use las_shell.Risk.Text.{str_to_upper}
use las_shell.Risk.Text.Tokens.{IsToken}
use las_shell.Risk.Config.{Numbers, parse_symbol_list}
use las_shell.Risk.Config.Symbols.{parse_symbol_list-joined}
use las_shell.Risk.Config.Invariant.{IsValidConfig}
use las_shell.Risk.Order.{
  is_blank, ParsedOrder, pass, err_drawdown, err_size, err_symbol, parse_order_line,
  validate_order_against_risk,
}
use las_shell.Risk.Order.Gate.{Listed, IsAdmissible, validate_order_iff, validate_order_unsized}
use las_shell.Risk.Order.Fields.{parse_order_line-fields}
use las_shell.Risk.State.{
  RiskState, load_risk_config, reload_risk_config, risk_config_is_currency_allowed,
  assert_risk_limits, given,
}
use las_shell.Risk.State.Reload.{reload_risk_config-load, load_risk_config-IsValidConfig}
use las_shell.Risk.State.Queries.{IsWithin, is_currency_allowed_iff, assert_risk_limits_iff}
use las_shell.Examples.Data.{holds, only, cons_ne_nil}

-- Zero stands for a number below zero, so that every comparison has both answers.
abbrev value_of : ℕ → Bytes → ℕ
value_of acc [] = acc
value_of acc (c ∷ cs) =
    if leb b'0' c && leb c b'9' then value_of (acc * 10 + (c - b'0')) cs else acc

abbrev whole : Numbers
whole = record {
  Double = ℕ;
  of_ℕ = λ n. n;
  lt = ltb;
  le = leb;
  mul = λ a b. a * b;
  fabs = λ a. a;
  atof = λ s. value_of 0 s;
  atoi = λ s. pos (value_of 0 s);
}

abbrev registry : State
registry = record { table = builtin_usd ∷ []; loaded = true }

abbrev risk_file : Bytes
risk_file =
    codes
      "# limits\nmax_position_size = 500\nBLOCKED_SYMBOLS = gme, amc\nALLOWED_CURRENCIES=usd,XXX\nno value\n"

abbrev files : Bytes → Option Bytes
files path = some risk_file

abbrev loaded_state : RiskState whole
loaded_state = load_risk_config whole registry files (some (codes "/root"))

loaded_position_size : loaded_state.config.max_position_size ≡ 500
unfolding load_risk_config
loaded_position_size = refl

loaded_currencies : loaded_state.config.allowed_currencies ≡ codes "USD" ∷ []
unfolding load_risk_config binary_search
loaded_currencies = refl

loaded_blocked : loaded_state.config.blocked_symbols ≡ codes "GME" ∷ codes "AMC" ∷ []
unfolding load_risk_config
loaded_blocked = refl

load_risk_config-IsValidConfig_example : IsValidConfig registry whole loaded_state.config
load_risk_config-IsValidConfig_example =
    load_risk_config-IsValidConfig whole registry files (some (codes "/root"))

reload_risk_config-load_example :
    reload_risk_config whole registry files
      (load_risk_config whole registry files (some (codes "/root")))
    ≡ load_risk_config whole registry files (some (codes "/root"))
reload_risk_config-load_example =
    reload_risk_config-load whole registry files (some (codes "/root"))

is_currency_allowed_iff_example :
    (risk_config_is_currency_allowed whole
        (load_risk_config whole registry files (some (codes "/root")))
        (codes "eur")
      ≡ true)
    ↔ Listed
        (codes "EUR")
        (load_risk_config whole registry files (some (codes "/root"))).config.allowed_currencies
unfolding load_risk_config binary_search
is_currency_allowed_iff_example =
    is_currency_allowed_iff whole registry files (some (codes "/root")) b'e' (codes "ur") refl

assert_risk_limits_iff_example :
    ((assert_risk_limits whole loaded_state (codes "DRAWDOWN=11" ∷ [])).code ≡ pass) ↔ (
      IsWithin whole 10
        (λ s. value_of 0 s)
        (given whole (my_getenv (some (codes "DRAWDOWN")) (some (codes "DRAWDOWN=11" ∷ []))))
      × IsWithin whole 50000
          (λ s. value_of 0 s)
          (given whole (my_getenv (some (codes "DAILY_LOSS")) (some (codes "DRAWDOWN=11" ∷ [])))))
unfolding load_risk_config
assert_risk_limits_iff_example =
    assert_risk_limits_iff whole loaded_state (codes "DRAWDOWN=11" ∷ []) refl refl

drawdown_is_refused :
    ((assert_risk_limits whole loaded_state (codes "DRAWDOWN=11" ∷ [])).code) ≡ err_drawdown
unfolding assert_risk_limits load_risk_config is_entry_of
drawdown_is_refused = refl

-- `spy buy 100 4`
abbrev bought : ParsedOrder whole
bought = record {
  symbol = codes "SPY";
  action = codes "BUY";
  size = 100;
  price = 4;
  notional = 400;
}

validate_order_iff_example :
    ((validate_order_against_risk whole true loaded_state.config (codes "spy buy 100 4")).code
      ≡ pass)
    ↔ IsAdmissible whole loaded_state.config bought
unfolding parse_order_line
validate_order_iff_example =
    validate_order_iff whole loaded_state.config (codes "spy buy 100 4") bought refl

large_order_is_refused :
    (validate_order_against_risk whole true loaded_state.config (codes "spy buy 501 4")).code
    ≡ err_size
unfolding validate_order_against_risk parse_order_line check_order symbol_is_blocked
    load_risk_config symbol_is_allowed
large_order_is_refused = refl

blocked_order_is_refused :
    (validate_order_against_risk whole true loaded_state.config (codes "gme buy 5 4")).code
    ≡ err_symbol
unfolding validate_order_against_risk parse_order_line check_order symbol_is_blocked
    load_risk_config
blocked_order_is_refused = refl

differ : (a b : Bytes) → str_eq a b ≡ false → ¬ (a ≡ b)
differ a b h e = ground (arith, h, (str_eq_iff a b).1 e)

not_blocked : ¬ Listed (codes "SPY") loaded_state.config.blocked_symbols
unfolding load_risk_config
not_blocked = λ l. elim l [
  | inl e ↦ differ (codes "GME") (codes "SPY") refl e
  | inr (inl e) ↦ differ (codes "AMC") (codes "SPY") refl e
  | inr (inr h) ↦ h
]

-- A size that is not a number.
validate_order_unsized_example :
    (validate_order_against_risk whole true loaded_state.config (codes "spy sell -900000")).code
    ≡ pass
unfolding parse_order_line load_risk_config
validate_order_unsized_example =
    validate_order_unsized whole loaded_state.config (codes "spy sell -900000")
      (record { symbol = codes "SPY"; action = codes "SELL"; size = 0; price = 0; notional = 0 })
      refl refl refl not_blocked (inl refl)

token :
    (is_delim : ℕ → Bool) (c : ℕ) (cs : Bytes)
    → holds (λ d. not (is_delim d)) (c ∷ cs) ≡ true
    → IsToken is_delim (c ∷ cs)
token is_delim c cs h = (cons_ne_nil c cs, only (λ d. not (is_delim d)) (c ∷ cs) h)

parse_order_line-fields_example : parse_order_line whole (codes "spy buy 100 4") ≡ some bought
unfolding str_to_upper
parse_order_line-fields_example =
    parse_order_line-fields whole (codes "spy") (codes "buy") (codes "100") (codes "4") (refl, refl)
      (
        token is_blank _ _ refl,
        (token is_blank _ _ refl, (token is_blank _ _ refl, (token is_blank _ _ refl, tt))),
      )
      (omega arith)

parse_symbol_list-joined_example :
    parse_symbol_list (codes "spy,Brk.b") ≡ codes "SPY" ∷ codes "BRK.B" ∷ []
unfolding str_to_upper
parse_symbol_list-joined_example =
    parse_symbol_list-joined (codes "spy" ∷ codes "Brk.b" ∷ [])
      (
        (token (λ c. c == b',') _ _ refl, (refl, refl), omega arith),
        ((token (λ c. c == b',') _ _ refl, (refl, refl), omega arith), tt),
      )
      (omega arith) (omega arith)
