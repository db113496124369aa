-- ===== src/Operators/Backtest.antt =====
-- src/operators.c: `parse_backtest_date`. The result is the text of the first and of the last day.
pub mod Shape
use las_shell.Prelude.{
  ℕ, zero, suc, ◌-◌, Bytes, codes, peek, length, take, drop, Bool, true, false, not, ◌&&◌, ◌||◌,
  Option, none, some, List, [], ◌∷◌, ◌++◌, leb, ◌==◌, if◌then◌else◌, get_elem?,
}
use las_shell.CString.Libc.{strchr}

abbrev pub is_digit : ℕ → Bool
is_digit c = leb b'0' c && leb c b'9'

unfoldable pub all_digits : Bytes → Bool
all_digits [] = true
all_digits (c ∷ cs) = is_digit c && all_digits cs

-- The bytes of a text of ten, as `YYYY-MM-DD`.
unfoldable pub is_date_text : Bytes → Bool
unfolding all_digits
is_date_text s =
    all_digits (take 4 s)
    && peek (drop 4 s) == b'-'
    && all_digits (take 2 (drop 5 s))
    && peek (drop 7 s) == b'-'
    && all_digits (take 2 (drop 8 s))

abbrev pub years : Bytes → Bytes → Option (Bytes × Bytes)
years left right =
    if all_digits left && length right == 4 && all_digits right
    then some (left ++ codes "-01-01", right ++ codes "-12-31")
    else none

abbrev pub dates : Bytes → Bytes → Option (Bytes × Bytes)
dates left right =
    if length right == 10 && is_date_text left && is_date_text right
    then some (left, right)
    else none

-- The text in front of the first `:`, and the text behind it.
abbrev pub date_range : Bytes → Bytes → Option (Bytes × Bytes)
date_range left right =
    if length left == 4
    then years left right
    else if length left == 10
    then dates left right
    else none

abbrev pub at_separator : Bytes → Option Bytes → Option (Bytes × Bytes)
at_separator s none = none
at_separator s (some sep) = date_range (take (length s - length sep) s) (drop 1 sep)

unfoldable pub parse_backtest_date : Option Bytes → Option (Bytes × Bytes)
unfolding strchr is_date_text
parse_backtest_date none = none
parse_backtest_date (some s) = at_separator s (strchr s b':')
