-- ===== src/Risk/Text.antt =====
-- src/risk_config.c: `trim_ws`, `str_to_upper` and `safe_strncpy`, with the C library's `strtok_r`.
pub mod Tokens
use las_shell.Prelude.{
  ℕ, ◌-◌, Bytes, length, take, Bool, true, false, ◌&&◌, ◌||◌, List, [], ◌∷◌, map, leb, ◌==◌,
  if◌then◌else◌,
}
use las_shell.CString.Libc.{toupper}

-- `isspace`
abbrev pub is_white : ℕ → Bool
is_white c = leb 9 c && leb c 13 || c == b' '

unfoldable pub trim_front : Bytes → Bytes
trim_front [] = []
trim_front (c ∷ cs) = if is_white c then trim_front cs else c ∷ cs

abbrev pub cons_unless_end : ℕ → Bytes → Bytes
cons_unless_end c [] = if is_white c then [] else c ∷ []
cons_unless_end c (d ∷ ds) = c ∷ d ∷ ds

unfoldable pub trim_back : Bytes → Bytes
trim_back [] = []
trim_back (c ∷ cs) = cons_unless_end c (trim_back cs)

unfoldable pub trim_ws : Bytes → Bytes
unfolding trim_front trim_back
trim_ws s = trim_back (trim_front s)

unfoldable pub str_to_upper : Bytes → Bytes
unfolding toupper
str_to_upper s = map toupper s

-- What a buffer of `n` bytes holds after `safe_strncpy`.
abbrev pub safe_strncpy : Bytes → ℕ → Bytes
safe_strncpy src n = take (n - 1) src

abbrev pub push_token : Bytes → List Bytes → List Bytes
push_token [] ts = ts
push_token (c ∷ cs) ts = (c ∷ cs) ∷ ts

module _ (is_delim : ℕ → Bool) where
  -- The bytes up to the first delimiter, and the tokens behind it.
  unfoldable pub token_front : Bytes → Bytes × List Bytes
  token_front [] = ([], [])
  token_front (c ∷ cs) =
      let (first, rest) = token_front cs in
      if is_delim c then ([], push_token first rest) else (c ∷ first, rest)

  -- All the tokens that calls of `strtok_r` give: the longest runs without a delimiter.
  unfoldable pub strtok_all : Bytes → List Bytes
  unfolding token_front
  strtok_all s = let (first, rest) = token_front s in push_token first rest
