-- ===== src/Environment/Room.antt =====
-- Writing inside a buffer with room for what is written.
use las_shell.Prelude.{
  ℕ, suc, ◌+◌, ◌≤◌, ◌≡◌, refl, Bytes, peek, length, drop, Bool, true, false, not, Option, [], ◌∷◌,
  ltb, ◌==◌, if◌then◌else◌, arith, length-append,
}
use las_shell.InputParser.{is_name_byte, span_limit, skip_byte}
use las_shell.InputParser.Run.{length-drop_le, span_limit_rest, skip_byte_le}
use las_shell.Environment.Line.{
  Res, ok, gave_up, fault, and_then, Buffer, Mode, single, put, put_text, variable, variable_within,
}

-- What holds of a result: `P` of a value, `R` of giving up, and nothing of a fault.
abbrev pub Safe {ℓ} : {A : Type ℓ} → Type 0 → (A → Type 0) → Res A → Type 0
Safe R P (ok a) = P a
Safe R P gave_up = R
Safe R P fault = ⊥

pub Safe-and_then {ℓ κ} :
    {A : Type ℓ} {B : Type κ} (R : Type 0) (P : A → Type 0) (Q : B → Type 0) (r : Res A)
    (f : A → Res B)
    → Safe R P r
    → ((a : A) → P a → Safe R Q (f a))
    → Safe R Q (and_then r f)
Safe-and_then R P Q (ok a) f h k = k a h
Safe-and_then R P Q gave_up f h k = h
Safe-and_then R P Q fault f h k = h

pub Safe-if {ℓ} :
    {A : Type ℓ} (R : Type 0) (P : A → Type 0) (c : Bool) (r r' : Res A)
    → (c ≡ true → Safe R P r)
    → (c ≡ false → Safe R P r')
    → Safe R P (if c then r else r')
Safe-if R P true r r' h k = h refl
Safe-if R P false r r' h k = k refl

-- There is room for `k` more cells.
abbrev pub Room : ℕ → Buffer → Type 0
Room k b = length b.out + k ≤ b.cap

abbrev pub spare : Mode → ℕ
spare single = 1
spare m = 2

pub put-Room : (R : Type 0) (k c : ℕ) (b : Buffer) → Room (suc k) b → Safe R (Room k) (put c b)
unfolding put
put-Room R k c b h =
    let n = length-append {0} b.out (c ∷ []) in
    let fits : ltb (length b.out) b.cap ≡ true = ground arith in rw fits (omega (arith, n, h))

pub put_text-Room :
    (R : Type 0) (value : Bytes) (b : Buffer)
    → Room (length value + 3) b
    → Safe R (Room 2) (put_text value b)
unfolding put_text
put_text-Room R value b h =
    let n = length-append {0} b.out value in
    let fits : ltb (length b.out + length value) b.cap ≡ true = ground arith in
    rw fits (omega (arith, n, h))

rest_le :
    (c : Bool) (x y : Bytes × (Option Bytes × Bytes)) (n : ℕ)
    → length x.1.1 ≤ n
    → length y.1.1 ≤ n
    → length (if c then x else y).1.1 ≤ n
rest_le true x y n h k = h
rest_le false x y n h k = k

variable_within_le : (n : ℕ) (s : Bytes) → length (variable_within n s).1.1 ≤ length s
unfolding variable_within
variable_within_le n s =
    let named = span_limit is_name_byte n (skip_byte b'{' s) in
    let s2 = named.1 in
    let s3 = (span_limit (λ c. not (c == b'}')) n (drop 2 s2)).1 in
    let short : length s2 ≤ length s =
      omega (arith, span_limit_rest is_name_byte n (skip_byte b'{' s), skip_byte_le b'{' s) in
    let given : length (skip_byte b'}' s3) ≤ length s = omega (
      arith,
      short,
      skip_byte_le b'}' s3,
      span_limit_rest (λ c. not (c == b'}')) n (drop 2 s2),
      length-drop_le 2 s2,
    ) in
    let closed : length (skip_byte b'}' s2) ≤ length s =
      omega (arith, short, skip_byte_le b'}' s2) in
    rest_le _ _ _ _ given (rest_le (peek s == b'{') _ _ _ closed short)

pub variable_le : (s : Bytes) → length (variable s).1.1 ≤ length s
unfolding variable
variable_le s = variable_within_le 255 s

-- A block that `realloc` does not give.
abbrev pub Refused : (ℕ → Bool) → Type 0
Refused realloc = (n : ℕ) × (realloc n ≡ false)
