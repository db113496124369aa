-- ===== src/Risk/State/Queries.antt =====
-- The queries on a loaded configuration and the zero-operand `assert`.
use las_shell.Prelude.{
  ℕ, ◌≡◌, ◌↔◌, refl, Bytes, map, true, false, Option, none, some, List, [], ◌∷◌, arith, All, codes,
}
use las_shell.CString.Libc.{str_eq_iff, toupper}
use las_shell.Currency.Table.{State}
use las_shell.Environment.Getenv.{my_getenv}
use las_shell.Risk.Config.{Numbers}
use las_shell.Risk.Config.Invariant.{IsKnown}
use las_shell.Risk.Order.{err_daily_loss, pass, passed, rejected}
use las_shell.Risk.Order.Gate.{Listed, first_check}
use las_shell.Risk.State.{
  RiskState, load_risk_config, risk_config_is_currency_allowed, is_allowed_code, same_ignoring_case,
  assert_risk_limits, given, check_drawdown, check_daily_loss,
}
use las_shell.Risk.State.Reload.{load_risk_config-IsValidConfig}

-- The codes of a list in upper case are found by their text alone.
is_allowed_code_iff :
    (cs : List Bytes) (code : Bytes)
    → All (λ c. map toupper c ≡ c) cs
    → (is_allowed_code cs code ≡ true) ↔ Listed (map toupper code) cs
unfolding is_allowed_code same_ignoring_case
is_allowed_code_iff [] code h = (λ e. ground (arith, e), λ l. absurd l)
is_allowed_code_iff (c ∷ cs) code (h, hs) =
    rw h (ground (arith, str_eq_iff c (map toupper code), is_allowed_code_iff cs code hs))

uppers : (cur : State) (cs : List Bytes) → All (IsKnown cur) cs → All (λ c. map toupper c ≡ c) cs
uppers cur [] h = tt
uppers cur (c ∷ cs) h = (h.0.0, uppers cur cs h.1)

risk_loaded_lem :
    (nums : Numbers) (cur : State) (read : Bytes → Option Bytes) (home : Option Bytes)
    → (load_risk_config nums cur read home).risk_loaded ≡ true
unfolding load_risk_config
risk_loaded_lem nums cur read home = refl

module _ (nums : Numbers) where
  -- Once the configuration file was read, and where it restricts the currencies, a code of any case is
  -- allowed exactly if the code in upper case is in the list that was read.
  pub is_currency_allowed_iff :
      (cur : State) (read : Bytes → Option Bytes) (home : Option Bytes) (c : ℕ) (cs : Bytes)
      → (load_risk_config nums cur read home).config.has_allowed_currencies ≡ true
      → (risk_config_is_currency_allowed nums (load_risk_config nums cur read home) (c ∷ cs) ≡ true)
        ↔ Listed
            (map toupper (c ∷ cs))
            (load_risk_config nums cur read home).config.allowed_currencies
  unfolding risk_config_is_currency_allowed
  is_currency_allowed_iff cur read home c cs h =
      let v = load_risk_config-IsValidConfig nums cur read home in
      rw (h, risk_loaded_lem nums cur read home)
        (is_allowed_code_iff _ (c ∷ cs) (uppers cur _ v.currencies.1))

  -- A limit on a variable of the environment: unset or empty, or not above the limit.
  abbrev pub IsWithin : nums.Double → (Bytes → nums.Double) → Option Bytes → Type 0
  IsWithin limit number none = Unit
  IsWithin limit number (some s) = nums.lt limit (number s) ≡ false

  -- With a configuration that was read from a file, the assertion of the limits passes exactly if
  -- `DRAWDOWN` is unset, empty or not above its limit, and the absolute value of `DAILY_LOSS` is so.
  pub assert_risk_limits_iff :
      (s : RiskState nums) (env : List Bytes)
      → s.risk_loaded ≡ true
      → s.config.loaded ≡ true
      → ((assert_risk_limits nums s env).code ≡ pass) ↔ (
          IsWithin s.config.max_drawdown_pct nums.atof
            (given nums (my_getenv (some (codes "DRAWDOWN")) (some env)))
          × IsWithin s.config.max_daily_loss
              (λ v. nums.fabs (nums.atof v))
              (given nums (my_getenv (some (codes "DAILY_LOSS")) (some env))))
  unfolding assert_risk_limits
  assert_risk_limits_iff s env h k =
      rw (h, k)
        (both (given nums (my_getenv (some (codes "DRAWDOWN")) (some env)))
          (given nums (my_getenv (some (codes "DAILY_LOSS")) (some env))))
    where
      loss :
          (b : Option Bytes)
          → ((check_daily_loss nums s.config b).code ≡ pass)
            ↔ IsWithin s.config.max_daily_loss (λ v. nums.fabs (nums.atof v)) b
      loss none = (λ e. tt, λ u. refl)
      loss (some b) = ground (
        arith,
        first_check nums (nums.lt s.config.max_daily_loss (nums.fabs (nums.atof b)))
            (rejected nums err_daily_loss (codes "MAX_DAILY_LOSS") s.config.max_daily_loss
              (nums.fabs (nums.atof b)))
            (passed nums) (λ e. ground (arith, e)),
      )

      both :
          (a b : Option Bytes)
          → ((check_drawdown nums s.config a (check_daily_loss nums s.config b)).code ≡ pass) ↔ (
              IsWithin s.config.max_drawdown_pct nums.atof a
              × IsWithin s.config.max_daily_loss (λ v. nums.fabs (nums.atof v)) b)
      both none b = ground (arith, loss b)
      both (some a) b = ground (arith, loss b)
