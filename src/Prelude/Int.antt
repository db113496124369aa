-- ===== src/Prelude/Int.antt =====
-- Signed integers over the native numbers, as far as the results of the comparison functions
-- need them. `negsuc n` is -(n + 1).
use las_shell.Prelude.{Bool, false, ◌==◌, ℕ, suc, ◌-◌, ◌<◌, leb, if◌then◌else◌}

pub data ℤ : Type 0 where
  pos : ℕ → ℤ
  negsuc : ℕ → ℤ

abbrev pub pos_part : ℤ → ℕ
pos_part (pos n) = n
pos_part (negsuc n) = 0

abbrev pub neg_part : ℤ → ℕ
neg_part (pos n) = 0
neg_part (negsuc n) = suc n

-- a - b, as an integer.
abbrev pub sub_ℕ : ℕ → ℕ → ℤ
sub_ℕ a b = if leb b a then pos (a - b) else negsuc (b - a - 1)

abbrev pub IsNegative : ℤ → Type 0
IsNegative z = 0 < neg_part z

abbrev pub IsPositive : ℤ → Type 0
IsPositive z = 0 < pos_part z

abbrev pub is_zero : ℤ → Bool
is_zero (pos n) = n == 0
is_zero (negsuc n) = false
