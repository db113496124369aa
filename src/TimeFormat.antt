-- ===== src/TimeFormat.antt =====
-- src/helper.c: `my_strftime`. The fields of `struct tm` are numbers, `year` with its 1900 added and
-- `month` with its 1; the buffer is what has been written, `remaining` the room left for bytes.
pub mod Render
use las_shell.Prelude.{
  ℕ, zero, suc, ◌+◌, ◌-◌, ◌/◌, ◌%◌, Bytes, Bool, true, false, Option, none, some, List, [], ◌∷◌,
  ◌++◌, ◌==◌, if◌then◌else◌,
}

pub record Tm : Type 0 where
  pub year : ℕ
  pub month : ℕ
  pub mday : ℕ
  pub hour : ℕ
  pub min : ℕ
  pub sec : ℕ

-- `tmp[i] = '0' + n`, stored as a byte.
abbrev pub digit : ℕ → ℕ
digit n = (b'0' + n) % 256

abbrev pub two_digits : ℕ → Bytes
two_digits n = digit (n / 10) ∷ digit (n % 10) ∷ []

abbrev pub four_digits : ℕ → Bytes
four_digits n = digit (n / 1000) ∷ digit (n / 100 % 10) ∷ digit (n / 10 % 10) ∷ digit (n % 10) ∷ []

-- The `switch` on the byte behind a `%`: what is put into `tmp`.
unfoldable pub directive : Tm → ℕ → Bytes
directive tm c =
    if c == b'Y'
    then four_digits tm.year
    else if c == b'm'
    then two_digits tm.month
    else if c == b'd'
    then two_digits tm.mday
    else if c == b'H'
    then two_digits tm.hour
    else if c == b'M'
    then two_digits tm.min
    else if c == b'S'
    then two_digits tm.sec
    else if c == b'T'
    then two_digits tm.hour ++ (b':' ∷ (two_digits tm.min ++ (b':' ∷ two_digits tm.sec)))
    else if c == b'F'
    then four_digits tm.year ++ (b'-' ∷ (two_digits tm.month ++ (b'-' ∷ two_digits tm.mday)))
    else if c == b'%'
    then b'%' ∷ []
    else b'%' ∷ c ∷ []

-- `for (i = 0; i < len && remaining > 0; i++) { *out++ = s[i]; remaining--; }`
unfoldable pub copy_tmp : Bytes → Bytes → ℕ → Bytes × ℕ
copy_tmp out [] remaining = (out, remaining)
copy_tmp out (c ∷ cs) zero = (out, zero)
copy_tmp out (c ∷ cs) (suc remaining) = copy_tmp (out ++ (c ∷ [])) cs remaining

-- The loop over `fmt`. `none` is the read behind the terminating NUL that a lone `%` at the end of
-- `fmt` leads to: `p++` passes the `%`, and the loop's own `p++` passes the NUL.
unfoldable pub format_from : Tm → Bytes → ℕ → Bytes → Option Bytes
unfolding copy_tmp
format_from tm out zero fmt = some out
format_from tm out (suc r) [] = some out
format_from tm out (suc r) (c ∷ []) = if c == b'%' then none else some (out ++ (c ∷ []))
format_from tm out (suc r) (c ∷ d ∷ fmt) =
    let plain = format_from tm (out ++ (c ∷ [])) r (d ∷ fmt) in
    let (out', r') = copy_tmp out (directive tm d) (suc r) in
    let converted = format_from tm out' r' fmt in if c == b'%' then converted else plain

-- The bytes written before the terminating NUL, whose number is the result; with no buffer the
-- result is 0 and nothing is written.
unfoldable pub my_strftime : ℕ → Bytes → Tm → Option Bytes
unfolding format_from
my_strftime zero fmt tm = some []
my_strftime (suc n) fmt tm = format_from tm [] n fmt
