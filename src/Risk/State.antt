-- ===== src/Risk/State.antt =====
-- src/risk_config.c: the configuration of the running shell: `load_risk_config`, `reload_risk_config`,
-- the queries, `assert_risk_limits` and `command_riskconfig`. `read` is the file system: a file's bytes,
-- or `none` if it cannot be opened. Of a command the result and the new state are modelled.
pub mod Reload
pub mod Queries
use las_shell.Prelude.{
  ℕ, Bytes, codes, Bool, true, false, not, ◌&&◌, ◌||◌, Option, none, some, List, [], ◌∷◌, ◌++◌,
  if◌then◌else◌, map,
}
use las_shell.CString.Libc.{str_eq, toupper}
use las_shell.Currency.Table.{State}
use las_shell.Environment.Getenv.{my_getenv}
use las_shell.Risk.Text.{safe_strncpy}
use las_shell.Risk.Config.{Numbers, RiskConfig, set_defaults, is_empty, parse_config_file}
use las_shell.Risk.Order.{
  RiskResult, RiskCode, pass, err_drawdown, err_daily_loss, passed, rejected,
}

-- The C library's `strcasecmp`, equal or not.
unfoldable pub same_ignoring_case : Bytes → Bytes → Bool
unfolding str_eq toupper
same_ignoring_case a b = str_eq (map toupper a) (map toupper b)

unfoldable pub is_allowed_code : List Bytes → Bytes → Bool
unfolding same_ignoring_case
is_allowed_code [] code = false
is_allowed_code (c ∷ cs) code = same_ignoring_case c code || is_allowed_code cs code

module _ (nums : Numbers) where
  pub record RiskState : Type 0 where
    pub config : RiskConfig nums
    pub risk_loaded : Bool

  -- `$HOME/.las_shell_risk`, or the file of that name in the current directory.
  abbrev pub risk_path : Option Bytes → Bytes
  risk_path none = codes ".las_shell_risk"
  risk_path (some home) = safe_strncpy (home ++ codes "/.las_shell_risk") 512

  module _ (cur : State) (read : Bytes → Option Bytes) where
    -- The defaults, with the path, and then the file over them.
    unfoldable pub config_at : Bytes → RiskConfig nums
    unfolding set_defaults parse_config_file
    config_at path =
        let start = record (set_defaults nums) { config_path = path } in
        let (cfg, found) = parse_config_file nums cur (read path) start in
        record cfg { loaded = found }

    unfoldable pub load_risk_config : Option Bytes → RiskState
    unfolding config_at
    load_risk_config home = record { config = config_at (risk_path home); risk_loaded = true }

    unfoldable pub reload_risk_config : RiskState → RiskState
    unfolding config_at
    reload_risk_config s = record s { config = config_at (safe_strncpy s.config.config_path 512) }

    -- `command_riskconfig`, by `args[1]`.
    unfoldable pub command_riskconfig : Option Bytes → RiskState → ℕ × RiskState
    unfolding reload_risk_config str_eq
    command_riskconfig none s = (0, s)
    command_riskconfig (some sub) s =
        if str_eq sub (codes "show")
        then (0, s)
        else if str_eq sub (codes "reload")
        then (0, reload_risk_config s)
        else if str_eq sub (codes "path")
        then (0, s)
        else (1, s)

  unfoldable pub get_risk_config : RiskState → Option (RiskConfig nums)
  get_risk_config s = if not s.risk_loaded then none else some s.config

  unfoldable pub risk_config_base_currency : RiskState → Option Bytes
  risk_config_base_currency s =
      if not s.risk_loaded || is_empty s.config.base_currency
      then none
      else some s.config.base_currency

  unfoldable pub risk_config_is_currency_allowed : RiskState → Bytes → Bool
  unfolding is_allowed_code
  risk_config_is_currency_allowed s [] = false
  risk_config_is_currency_allowed s (c ∷ cs) =
      if not s.risk_loaded || not s.config.has_allowed_currencies
      then true
      else is_allowed_code s.config.allowed_currencies (c ∷ cs)

  -- A variable that is set and not empty.
  abbrev pub given : Option Bytes → Option Bytes
  given none = none
  given (some []) = none
  given (some (c ∷ cs)) = some (c ∷ cs)

  abbrev pub check_daily_loss : RiskConfig nums → Option Bytes → RiskResult nums
  check_daily_loss cfg none = passed nums
  check_daily_loss cfg (some s) =
      let loss = nums.fabs (nums.atof s) in
      if nums.lt cfg.max_daily_loss loss
      then rejected nums err_daily_loss (codes "MAX_DAILY_LOSS") cfg.max_daily_loss loss
      else passed nums

  abbrev pub check_drawdown : RiskConfig nums → Option Bytes → RiskResult nums → RiskResult nums
  check_drawdown cfg none next = next
  check_drawdown cfg (some s) next =
      let drawdown = nums.atof s in
      if nums.lt cfg.max_drawdown_pct drawdown
      then rejected nums err_drawdown (codes "MAX_DRAWDOWN_PCT") cfg.max_drawdown_pct drawdown
      else next

  unfoldable pub assert_risk_limits : RiskState → List Bytes → RiskResult nums
  unfolding my_getenv
  assert_risk_limits s env =
      let variable = λ (name : Bytes). given (my_getenv (some name) (some env)) in
      if not s.risk_loaded || not s.config.loaded
      then passed nums
      else check_drawdown s.config (variable (codes "DRAWDOWN"))
          (check_daily_loss s.config (variable (codes "DAILY_LOSS")))
