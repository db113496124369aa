-- ===== src/Risk/Order/Gate.antt =====
-- Which orders the gate lets through.
use mathlib.Core.Option
use las_shell.Prelude.{
  subst, if_elim, peek, ◌==◌, ◌≢◌, take_idem, ◌≡◌, ◌↔◌, ◌⊎◌, inl, inr, refl, Bytes, take, Bool,
  true, false, ◌&&◌, Option, none, some, List, [], ◌∷◌, arith, if◌then◌else◌,
}
use las_shell.CString.Libc.{str_eq_iff, map-toupper_idem, take-map-toupper}
use las_shell.Risk.Text.{trim_front, str_to_upper, safe_strncpy}
use las_shell.Risk.Config.{Numbers, RiskConfig, symbol_len, is_empty}
use las_shell.Risk.Order.{
  is_listed, ParsedOrder, RiskResult, pass, check_order, parse_order_line, symbol_is_allowed,
  symbol_is_blocked, order_of, order_symbol, zero_number, validate_order_against_risk,
}

abbrev pub Listed : Bytes → List Bytes → Type 0
Listed t [] = ⊥
Listed t (s ∷ ss) = (s ≡ t) ⊎ Listed t ss

is_listed_iff : (ss : List Bytes) (t : Bytes) → (is_listed ss t ≡ true) ↔ Listed t ss
unfolding is_listed
is_listed_iff [] t = (λ h. ground arith, λ h. absurd h)
is_listed_iff (s ∷ ss) t = ground (arith, str_eq_iff s t, is_listed_iff ss t)

-- The symbol that a line is parsed to is in upper case already, and short enough.
order_symbol_idem :
    (nums : Numbers) (s : Bytes)
    → str_to_upper (safe_strncpy (order_symbol nums s) symbol_len) ≡ order_symbol nums s
unfolding str_to_upper
order_symbol_idem nums s =
    rw (take-map-toupper 31 (take 31 s), take_idem 31 s, map-toupper_idem (take 31 s)) refl

module _ (nums : Numbers) where
  open nums use {Double, lt, le}

  abbrev Clean : ParsedOrder nums → Type 0
  Clean order = str_to_upper (safe_strncpy order.symbol symbol_len) ≡ order.symbol

  -- A notional value that is not zero stands by a size above zero.
  abbrev Parsed : ParsedOrder nums → Type 0
  Parsed order =
      Clean order
      × ((order.notional ≡ zero_number nums) ⊎ (lt (zero_number nums) order.size ≡ true))

  notional_or_size : (c d : Bool) (x z : Double) → ((if c && d then x else z) ≡ z) ⊎ (c ≡ true)
  notional_or_size true d x z = inr refl
  notional_or_size false d x z = inl refl

  order_of-Parsed :
      (ts : List Bytes) {order : ParsedOrder nums} → order_of nums ts ≡ some order → Parsed order
  order_of-Parsed [] h = ground (arith, h)
  order_of-Parsed (s ∷ []) h =
      subst Parsed (Option.some_inj.0 h) (order_symbol_idem nums s, inl refl)
  order_of-Parsed (s ∷ a ∷ rest) h =
      subst Parsed (Option.some_inj.0 h) (order_symbol_idem nums s, notional_or_size _ _ _ _)

  parse_order_line-Parsed :
      (line : Bytes) (order : ParsedOrder nums)
      → parse_order_line nums line ≡ some order
      → Parsed order
  unfolding parse_order_line
  parse_order_line-Parsed line order =
      let p = trim_front line in
      if_elim P (is_empty p) none _ no_order
        (λ e. if_elim P (peek p == b'#') none _ no_order (λ e. order_of-Parsed _))
    where
      P : Option (ParsedOrder nums) → Type 0
      P o = o ≡ some order → Parsed order

      no_order : {A : Type 0} → A → P none
      no_order e h = absurd (Option.none-ne-some _ h)

  -- A size above zero is within the limits of the size, and there is a price.
  abbrev pub IsSizeWithin : RiskConfig nums → ParsedOrder nums → Type 0
  IsSizeWithin cfg order =
      (lt order.size cfg.min_position_size ≡ false)
      × (lt cfg.max_position_size order.size ≡ false)
      × (le order.price (zero_number nums) ≡ false)

  -- What the gate asks of an order.
  abbrev pub IsAdmissible : RiskConfig nums → ParsedOrder nums → Type 0
  IsAdmissible cfg order =
      (¬ Listed order.symbol cfg.blocked_symbols)
      × ((cfg.has_allowed_list ≡ false) ⊎ Listed order.symbol cfg.allowed_symbols)
      × ((lt (zero_number nums) order.size ≡ false) ⊎ IsSizeWithin cfg order)
      × ((lt (zero_number nums) order.notional ≡ false)
          ⊎ (lt cfg.max_order_notional order.notional ≡ false))

  pub first_check :
      (c : Bool) (r s : RiskResult nums)
      → r.code ≢ pass
      → ((if c then r else s).code ≡ pass) ↔ ((c ≡ false) × (s.code ≡ pass))
  first_check true r s n = ground (arith, n)
  first_check false r s n = ground arith

  check_order_iff :
      (cfg : RiskConfig nums) (order : ParsedOrder nums)
      → Clean order
      → ((check_order nums cfg order).code ≡ pass) ↔ IsAdmissible cfg order
  unfolding check_order symbol_is_allowed symbol_is_blocked
  check_order_iff cfg order h = grind (
    arith,
    first_check,
    is_listed_iff cfg.blocked_symbols order.symbol,
    is_listed_iff cfg.allowed_symbols order.symbol,
    h,
  )

  -- With a loaded configuration the gate passes a line that parses to an order exactly if the order's
  -- symbol is not in the block list, is in the allow list where there is one, a size above zero is
  -- within the two limits of the size and comes with a price, and a notional value above zero is not
  -- above its limit. No law of the floating-point comparisons is assumed.
  pub validate_order_iff :
      (cfg : RiskConfig nums) (line : Bytes) (order : ParsedOrder nums)
      → parse_order_line nums line ≡ some order
      → ((validate_order_against_risk nums true cfg line).code ≡ pass) ↔ IsAdmissible cfg order
  unfolding validate_order_against_risk
  validate_order_iff cfg line order h =
      rw h (check_order_iff cfg order (parse_order_line-Parsed line order h).0)

  -- A line with a size that is not above zero (a negative one, or `nan`) passes whatever the limits on
  -- the size and on the notional value are, if the lists of symbols admit its symbol; zero is assumed
  -- not to be above itself.
  pub validate_order_unsized :
      (cfg : RiskConfig nums) (line : Bytes) (order : ParsedOrder nums)
      → parse_order_line nums line ≡ some order
      → lt (zero_number nums) (zero_number nums) ≡ false
      → lt (zero_number nums) order.size ≡ false
      → ¬ Listed order.symbol cfg.blocked_symbols
      → (cfg.has_allowed_list ≡ false) ⊎ Listed order.symbol cfg.allowed_symbols
      → (validate_order_against_risk nums true cfg line).code ≡ pass
  validate_order_unsized cfg line order h z s b a =
      (validate_order_iff cfg line order h).1 (b, a, inl s, inl small)
    where
      small : lt (zero_number nums) order.notional ≡ false
      small = ground (arith, (parse_order_line-Parsed line order h).1, z, s)
