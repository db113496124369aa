-- ===== src/Risk/Config/Invariant.antt =====
-- What holds of a configuration whatever the file says.
use las_shell.Prelude.{
  if_elim, if_both, take_all, length-take, zero, Option, none, some, ltb, ◌-◌, ℕ, suc, ◌<◌, ◌≤◌,
  ◌≡◌, ◌⊎◌, inl, inr, refl, ap, sym, ◌∙◌, Bytes, map, length, take, Bool, true, List, [], ◌∷◌,
  arith, All, ◌==◌, drop,
}
use las_shell.CString.Libc.{toupper, map-toupper_idem, take-map-toupper, strchr}
use las_shell.Currency.Table.{State, currency_is_valid, currency_lookup}
use las_shell.Currency.Lookup.{currency_is_valid-toupper}
use las_shell.Risk.Text.{trim_ws, str_to_upper, safe_strncpy, strtok_all}
use las_shell.Risk.Config.{
  Numbers, RiskConfig, symbols_from, parse_symbol_list, currencies_from, parse_currency_list,
  set_key, key_value, parse_line, parse_lines, parse_config_file, set_defaults, is_empty,
  symbol_len,
}
use las_shell.Risk.Config.Keys.{set_key_elim}
use las_shell.Alias.File.{read_line}

-- A symbol in upper case that fits with its NUL.
abbrev pub IsStored : Bytes → Type 0
IsStored s = (map toupper s ≡ s) × (length s < 32)

safe_strncpy-IsStored : (s : Bytes) → IsStored (safe_strncpy (str_to_upper s) symbol_len)
unfolding str_to_upper
safe_strncpy-IsStored s = (upper, omega (arith, length-take 31 (map toupper s)))
  where
    upper : map toupper (take 31 (map toupper s)) ≡ take 31 (map toupper s)
    upper = sym (take-map-toupper 31 (map toupper s)) ∙ ap (take 31) (map-toupper_idem s)

-- A list of at most `n` such symbols.
abbrev pub IsList : (Bytes → Type 0) → ℕ → List Bytes → Type 0
IsList P n ss = (length ss ≤ n) × All P ss

IsList-skip : (P : Bytes → Type 0) (n : ℕ) → IsList P n []
IsList-skip P n = (omega arith, tt)

IsList-cons :
    (P : Bytes → Type 0) (n : ℕ) (s : Bytes) (ss : List Bytes)
    → P s
    → IsList P n ss
    → IsList P (suc n) (s ∷ ss)
IsList-cons P n s ss h (l, k) = (omega (arith, l), (h, k))

symbols_from-IsList : (room : ℕ) (toks : List Bytes) → IsList IsStored room (symbols_from room toks)
unfolding symbols_from
symbols_from-IsList zero toks = IsList-skip IsStored 0
symbols_from-IsList (suc room) [] = IsList-skip IsStored (suc room)
symbols_from-IsList (suc room) (tok ∷ toks) =
    if_both P (is_empty (trim_ws tok)) _ (_ ∷ _) (symbols_from-IsList (suc room) toks) (
      IsList-cons IsStored room _ _ (safe_strncpy-IsStored (trim_ws tok))
        (symbols_from-IsList room toks))
  where
    P : List Bytes → Type 0
    P = IsList IsStored (suc room)

parse_symbol_list-IsList : (val : Bytes) → IsList IsStored 256 (parse_symbol_list val)
unfolding parse_symbol_list
parse_symbol_list-IsList val =
    symbols_from-IsList 256 (strtok_all (λ c. c == b',') (safe_strncpy val 4096))

module _ (cur : State) where
  -- A code that the registry has, in upper case.
  abbrev pub IsKnown : Bytes → Type 0
  IsKnown code = (map toupper code ≡ code) × (currency_is_valid cur code ≡ true)

  short_code : (code : Bytes) → currency_is_valid cur code ≡ true → length code < 8
  unfolding currency_is_valid currency_lookup
  short_code [] h = omega arith
  short_code (c ∷ cs) h = ground (arith, h)

  safe_strncpy-IsKnown :
      (code : Bytes)
      → currency_is_valid cur code ≡ true
      → IsKnown (str_to_upper (safe_strncpy code 8))
  unfolding str_to_upper
  safe_strncpy-IsKnown code h =
      let short : take 7 code ≡ code = take_all 7 code (omega (arith, short_code code h)) in
      rw short (map-toupper_idem code, currency_is_valid-toupper cur code ∙ h)

  currencies_from-IsList :
      (nums : Numbers) (room : ℕ) (toks : List Bytes)
      → IsList IsKnown room (currencies_from nums cur room toks)
  unfolding currencies_from
  currencies_from-IsList nums zero toks = IsList-skip IsKnown 0
  currencies_from-IsList nums (suc room) [] = IsList-skip IsKnown (suc room)
  currencies_from-IsList nums (suc room) (tok ∷ toks) =
      let skip = currencies_from-IsList nums (suc room) toks in
      if_both P _ _ _ skip (
        if_elim P _ _ _
          (λ e.
            IsList-cons IsKnown room _ _ (safe_strncpy-IsKnown (trim_ws tok) e)
              (currencies_from-IsList nums room toks))
          (λ e. skip))
    where
      P : List Bytes → Type 0
      P = IsList IsKnown (suc room)

  parse_currency_list-IsList :
      (nums : Numbers) (val : Bytes) → IsList IsKnown 64 (parse_currency_list nums cur val)
  unfolding parse_currency_list
  parse_currency_list-IsList nums val =
      currencies_from-IsList nums 64 (strtok_all (λ c. c == b',') (safe_strncpy val 1024))

  module _ (nums : Numbers) where
    -- The lists fit and agree with their flags, symbols are as they are compared, codes are known.
    pub record IsValidConfig (cfg : RiskConfig nums) : Type 0 where
      pub allowed : IsList IsStored 256 cfg.allowed_symbols
      pub blocked : IsList IsStored 256 cfg.blocked_symbols
      pub currencies : IsList IsKnown 64 cfg.allowed_currencies
      pub allowed_flag : cfg.has_allowed_list ≡ ltb 0 (length cfg.allowed_symbols)
      pub currencies_flag : cfg.has_allowed_currencies ≡ ltb 0 (length cfg.allowed_currencies)
      pub base : (cfg.base_currency ≡ []) ⊎ IsKnown cfg.base_currency

    set_key-IsValidConfig :
        (ukey val : Bytes) (cfg : RiskConfig nums)
        → IsValidConfig cfg
        → IsValidConfig (set_key nums cur ukey val cfg)
    set_key-IsValidConfig ukey val cfg v =
        set_key_elim nums cur IsValidConfig ukey val cfg v
          (λ a b c n d e. record {
            allowed = v.allowed;
            blocked = v.blocked;
            currencies = v.currencies;
            allowed_flag = v.allowed_flag;
            currencies_flag = v.currencies_flag;
            base = v.base;
          })
          (record {
            allowed = parse_symbol_list-IsList val;
            blocked = v.blocked;
            currencies = v.currencies;
            allowed_flag = refl;
            currencies_flag = v.currencies_flag;
            base = v.base;
          })
          (record {
            allowed = v.allowed;
            blocked = parse_symbol_list-IsList val;
            currencies = v.currencies;
            allowed_flag = v.allowed_flag;
            currencies_flag = v.currencies_flag;
            base = v.base;
          })
          (λ h. record {
            allowed = v.allowed;
            blocked = v.blocked;
            currencies = v.currencies;
            allowed_flag = v.allowed_flag;
            currencies_flag = v.currencies_flag;
            base = inr (safe_strncpy-IsKnown val h);
          })
          (record {
            allowed = v.allowed;
            blocked = v.blocked;
            currencies = parse_currency_list-IsList nums val;
            allowed_flag = v.allowed_flag;
            currencies_flag = refl;
            base = v.base;
          })

    key_value-IsValidConfig :
        (p : Bytes) (eq : Option Bytes) (cfg : RiskConfig nums)
        → IsValidConfig cfg
        → IsValidConfig (key_value nums cur p eq cfg)
    key_value-IsValidConfig p none cfg v = v
    key_value-IsValidConfig p (some eq) cfg v =
        set_key-IsValidConfig
          (str_to_upper (safe_strncpy (trim_ws (take (length p - length eq) p)) 128))
          (trim_ws (drop 1 eq)) cfg v

    parse_line-IsValidConfig :
        (line : Bytes) (cfg : RiskConfig nums)
        → IsValidConfig cfg
        → IsValidConfig (parse_line nums cur line cfg)
    unfolding parse_line
    parse_line-IsValidConfig line cfg v = if_both P _ _ _ v (
        if_both P _ _ _ v
          (key_value-IsValidConfig (trim_ws line) (strchr (trim_ws line) b'=') cfg v))
      where
        P : RiskConfig nums → Type 0
        P = IsValidConfig

    parse_lines-IsValidConfig :
        (fuel : ℕ) (s : Bytes) (cfg : RiskConfig nums)
        → IsValidConfig cfg
        → IsValidConfig (parse_lines nums cur fuel s cfg)
    unfolding parse_lines
    parse_lines-IsValidConfig zero s cfg v = v
    parse_lines-IsValidConfig (suc fuel) [] cfg v = v
    parse_lines-IsValidConfig (suc fuel) (c ∷ cs) cfg v =
        parse_lines-IsValidConfig fuel (read_line 1023 (c ∷ cs)).1
          (parse_line nums cur (read_line 1023 (c ∷ cs)).0 cfg)
          (parse_line-IsValidConfig (read_line 1023 (c ∷ cs)).0 cfg v)

    pub parse_config_file-IsValidConfig :
        (file : Option Bytes) (cfg : RiskConfig nums)
        → IsValidConfig cfg
        → IsValidConfig (parse_config_file nums cur file cfg).0
    unfolding parse_config_file
    parse_config_file-IsValidConfig none cfg v = v
    parse_config_file-IsValidConfig (some text) cfg v =
        parse_lines-IsValidConfig (suc (length text)) text cfg v

    pub set_defaults-IsValidConfig : IsValidConfig (set_defaults nums)
    unfolding set_defaults
    set_defaults-IsValidConfig = record {
      allowed = IsList-skip IsStored 256;
      blocked = IsList-skip IsStored 256;
      currencies = IsList-skip IsKnown 64;
      allowed_flag = refl;
      currencies_flag = refl;
      base = inl refl;
    }

    -- The invariant says nothing of the path and of `loaded`.
    pub relabel :
        {cfg : RiskConfig nums} {b : Bool} {path : Bytes}
        → IsValidConfig cfg
        → IsValidConfig (record cfg { loaded = b; config_path = path })
    relabel v = record {
      allowed = v.allowed;
      blocked = v.blocked;
      currencies = v.currencies;
      allowed_flag = v.allowed_flag;
      currencies_flag = v.currencies_flag;
      base = v.base;
    }
