-- ===== src/Risk/State/Reload.antt =====
-- Loading and reloading, and what holds of a configuration that was loaded.
use las_shell.Prelude.{
  if_both, ℕ, suc, zero, ◌≡◌, refl, ap, ◌∙◌, Bytes, take, take_idem, length, true, Option, none,
  some, [], ◌∷◌, ◌++◌, peek, ◌==◌, drop, ◌-◌, codes,
}
use las_shell.CString.Libc.{strchr}
use las_shell.Currency.Table.{State}
use las_shell.Risk.Text.{safe_strncpy, trim_ws, str_to_upper}
use las_shell.Alias.File.{read_line}
use las_shell.Risk.Config.{
  Numbers, RiskConfig, set_key, key_value, parse_line, parse_lines, parse_config_file, set_defaults,
  is_empty,
}
use las_shell.Risk.Config.Keys.{set_key_elim}
use las_shell.Risk.Config.Invariant.{
  IsValidConfig, relabel, parse_config_file-IsValidConfig, set_defaults-IsValidConfig,
}
use las_shell.Risk.State.{risk_path, config_at, load_risk_config, reload_risk_config}

module _ (nums : Numbers) (cur : State) where
  set_key-path :
      (ukey val : Bytes) (cfg : RiskConfig nums)
      → (set_key nums cur ukey val cfg).config_path ≡ cfg.config_path
  set_key-path ukey val cfg =
      set_key_elim nums cur (λ c. c.config_path ≡ cfg.config_path) ukey val cfg refl
        (λ a b c n d e. refl) refl refl (λ h. refl) refl

  key_value-path :
      (p : Bytes) (eq : Option Bytes) (cfg : RiskConfig nums)
      → (key_value nums cur p eq cfg).config_path ≡ cfg.config_path
  key_value-path p none cfg = refl
  key_value-path p (some eq) cfg =
      set_key-path (str_to_upper (safe_strncpy (trim_ws (take (length p - length eq) p)) 128))
        (trim_ws (drop 1 eq)) cfg

  parse_line-path :
      (line : Bytes) (cfg : RiskConfig nums)
      → (parse_line nums cur line cfg).config_path ≡ cfg.config_path
  unfolding parse_line
  parse_line-path line cfg =
      let p = trim_ws line in
      if_both P (is_empty p) cfg _ refl
        (if_both P (peek p == b'#') cfg _ refl (key_value-path p (strchr p b'=') cfg))
    where
      P : RiskConfig nums → Type 0
      P c = c.config_path ≡ cfg.config_path

  parse_lines-path :
      (fuel : ℕ) (s : Bytes) (cfg : RiskConfig nums)
      → (parse_lines nums cur fuel s cfg).config_path ≡ cfg.config_path
  unfolding parse_lines
  parse_lines-path zero s cfg = refl
  parse_lines-path (suc fuel) [] cfg = refl
  parse_lines-path (suc fuel) (c ∷ cs) cfg =
      let (line, rest) = read_line 1023 (c ∷ cs) in
      parse_lines-path fuel rest (parse_line nums cur line cfg) ∙ parse_line-path line cfg

  parse_config_file-path :
      (file : Option Bytes) (cfg : RiskConfig nums)
      → (parse_config_file nums cur file cfg).0.config_path ≡ cfg.config_path
  unfolding parse_config_file
  parse_config_file-path none cfg = refl
  parse_config_file-path (some text) cfg = parse_lines-path (suc (length text)) text cfg

  module _ (read : Bytes → Option Bytes) where
    config_at-path : (path : Bytes) → (config_at nums cur read path).config_path ≡ path
    unfolding config_at
    config_at-path path = parse_config_file-path (read path) _

    risk_path-fits :
        (home : Option Bytes) → safe_strncpy (risk_path nums home) 512 ≡ risk_path nums home
    risk_path-fits none = refl
    risk_path-fits (some home) = take_idem 511 (home ++ codes "/.las_shell_risk")

    -- A reload reads the file that was loaded: as long as the file system answers the same, it changes
    -- nothing.
    pub reload_risk_config-load :
        (home : Option Bytes)
        → reload_risk_config nums cur read (load_risk_config nums cur read home)
          ≡ load_risk_config nums cur read home
    unfolding reload_risk_config load_risk_config
    reload_risk_config-load home =
        ap (λ path. record { config = config_at nums cur read path; risk_loaded = true })
          (ap (λ path. safe_strncpy path 512) (config_at-path (risk_path nums home))
            ∙ risk_path-fits home)

    -- Whatever the file says, or if there is none, the configuration that is loaded has lists that fit
    -- and agree with their flags, symbols in upper case that fit, and only currencies that the registry
    -- knows.
    pub load_risk_config-IsValidConfig :
        (home : Option Bytes) → IsValidConfig cur nums (load_risk_config nums cur read home).config
    unfolding load_risk_config config_at
    load_risk_config-IsValidConfig home =
        let path = risk_path nums home in
        let start = record (set_defaults nums) { config_path = path } in
        relabel cur nums (
          parse_config_file-IsValidConfig cur nums (read path) start
            (relabel cur nums (set_defaults-IsValidConfig cur nums)))
