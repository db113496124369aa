-- ===== src/CString/Compare.antt =====
-- src/helper.c: `my_strcmp`, `my_strlen`, `my_strncmp`. A `char*` is the text that it points at,
-- without the NUL; a byte is a number, read as `unsigned char` where the code casts it so.
use las_shell.Prelude.{
  ℕ, zero, suc, ◌+◌, Ordering, ◌≡◌, refl, Bytes, peek, IsText, length, take, [], ◌∷◌, arith, ◌==◌,
  if◌then◌else◌,
}
use las_shell.Prelude.Int.{ℤ, pos, sub_ℕ, IsNegative, IsPositive}
use las_shell.CString.Libc.{strcmp}

unfoldable pub my_strcmp : Bytes → Bytes → ℤ
my_strcmp [] ys = sub_ℕ 0 (peek ys)
my_strcmp (x ∷ xs) [] = sub_ℕ x 0
my_strcmp (x ∷ xs) (y ∷ ys) = if x == y then my_strcmp xs ys else sub_ℕ x y

-- The loop over `length`, from the count `n`.
length_from : ℕ → Bytes → ℕ
length_from n [] = n
length_from n (x ∷ xs) = length_from (n + 1) xs

unfoldable pub my_strlen : Bytes → ℕ
unfolding length_from
my_strlen s = length_from 0 s

-- The loop of at most `n` rounds; a text that has ended shows its NUL.
unfoldable pub my_strncmp : Bytes → Bytes → ℕ → ℤ
my_strncmp xs ys zero = pos 0
my_strncmp [] ys (suc n) = sub_ℕ 0 (peek ys)
my_strncmp (x ∷ xs) [] (suc n) = sub_ℕ x 0
my_strncmp (x ∷ xs) (y ∷ ys) (suc n) = if x == y then my_strncmp xs ys n else sub_ℕ x y

-- What the sign of a comparison says.
abbrev pub HasSign : ℤ → Ordering → Type 0
HasSign z Ordering.lt = IsNegative z
HasSign z Ordering.eq = z ≡ pos 0
HasSign z Ordering.gt = IsPositive z

-- On NUL-free texts the result of `my_strcmp` is negative, zero or positive as the C library's
-- byte order says.
pub my_strcmp-strcmp : (a b : Bytes) → IsText a → IsText b → HasSign (my_strcmp a b) (strcmp a b)
unfolding my_strcmp strcmp
my_strcmp-strcmp [] [] h k = refl
my_strcmp-strcmp [] (y ∷ ys) h k = ground arith
my_strcmp-strcmp (x ∷ xs) [] h k = ground arith
my_strcmp-strcmp (x ∷ xs) (y ∷ ys) h k = ground (arith, my_strcmp-strcmp xs ys h.1 k.1)

-- `my_strncmp` with a bound `n` is `my_strcmp` of the first `n` bytes of each text.
pub my_strncmp-take : (a b : Bytes) (n : ℕ) → my_strncmp a b n ≡ my_strcmp (take n a) (take n b)
unfolding my_strncmp my_strcmp
my_strncmp-take [] b zero = refl
my_strncmp-take [] [] (suc n) = refl
my_strncmp-take [] (y ∷ ys) (suc n) = refl
my_strncmp-take (x ∷ xs) b zero = refl
my_strncmp-take (x ∷ xs) [] (suc n) = refl
my_strncmp-take (x ∷ xs) (y ∷ ys) (suc n) = ground (arith, my_strncmp-take xs ys n)

length_from_lem : (n : ℕ) (s : Bytes) → length_from n s ≡ n + length s
unfolding length_from
length_from_lem n [] = omega arith
length_from_lem n (x ∷ xs) = omega (arith, length_from_lem (n + 1) xs)

pub my_strlen-length : (s : Bytes) → my_strlen s ≡ length s
unfolding my_strlen
my_strlen-length s = omega (arith, length_from_lem 0 s)
