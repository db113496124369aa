-- ===== src/InputParser/Run.antt =====
-- The fuel of `run` does not matter once it exceeds what is left to read, and one step is an equation.
use las_shell.Prelude.{
  ℕ, zero, suc, ◌<◌, ◌≤◌, ◌≡◌, refl, Bytes, length, drop, Bool, not, Option, some, List, [], ◌∷◌,
  arith, ◌==◌,
}
use las_shell.InputParser.{
  Mode, plain, single, double, Lexer, flush, span_limit, skip_byte, Round, step_single, braced,
  bare, step_double, step_plain, step, run, parse_input, is_name_byte,
}

pub length-drop_le : (n : ℕ) (s : Bytes) → length (drop n s) ≤ length s
length-drop_le zero s = omega arith
length-drop_le (suc n) [] = omega arith
length-drop_le (suc n) (c ∷ cs) = omega (arith, length-drop_le n cs)

pub span_limit_rest :
    (test : ℕ → Bool) (n : ℕ) (s : Bytes) → length (span_limit test n s).1 ≤ length s
unfolding span_limit
span_limit_rest test zero s = omega arith
span_limit_rest test (suc n) [] = omega arith
span_limit_rest test (suc n) (c ∷ cs) = ground (arith, span_limit_rest test n cs)

-- A round leaves no more than stands behind the byte that it read.
abbrev pub Shrinks : ℕ → Round → Type 0
Shrinks n r = length r.2 ≤ n

pub skip_byte_le : (ch : ℕ) (s : Bytes) → length (skip_byte ch s) ≤ length s
skip_byte_le ch s = ground (arith, length-drop_le 1 s)

step_single-Shrinks : (lx : Lexer) (c : ℕ) (cs : Bytes) → Shrinks (length cs) (step_single lx c cs)
unfolding step_single
step_single-Shrinks lx c cs = ground (arith, skip_byte_le b'\'' (drop 2 cs), length-drop_le 2 cs)

module _ (getenv : Bytes → Option Bytes) (status : Bytes) where
  braced-Shrinks : (lx : Lexer) (s : Bytes) → Shrinks (length s) (braced getenv status lx s)
  unfolding braced
  braced-Shrinks lx s =
      let rest = (span_limit (λ c. not (c == b'}')) 255 s).1 in
      omega (arith, skip_byte_le b'}' rest, span_limit_rest (λ c. not (c == b'}')) 255 s)

  bare-Shrinks : (lx : Lexer) (s : Bytes) → Shrinks (length s) (bare getenv status lx s)
  unfolding bare
  bare-Shrinks lx s = span_limit_rest is_name_byte 255 s

  step_double-Shrinks :
      (lx : Lexer) (c : ℕ) (cs : Bytes) → Shrinks (length cs) (step_double getenv status lx c cs)
  unfolding step_double
  step_double-Shrinks lx c cs =
      ground (arith, braced-Shrinks lx (drop 1 cs), bare-Shrinks lx cs, length-drop_le 1 cs)

  step_plain-Shrinks :
      (lx : Lexer) (c : ℕ) (cs : Bytes) → Shrinks (length cs) (step_plain getenv status lx c cs)
  unfolding step_plain
  step_plain-Shrinks lx c cs = ground (arith, length-drop_le 1 cs)

  pub step-Shrinks :
      (m : Mode) (lx : Lexer) (c : ℕ) (cs : Bytes)
      → Shrinks (length cs) (step getenv status m lx c cs)
  unfolding step
  step-Shrinks plain lx c cs = step_plain-Shrinks lx c cs
  step-Shrinks single lx c cs = step_single-Shrinks lx c cs
  step-Shrinks double lx c cs = step_double-Shrinks lx c cs

  run_fuel :
      (f g : ℕ) (m : Mode) (lx : Lexer) (s : Bytes)
      → length s < f
      → length s < g
      → run getenv status f m lx s ≡ run getenv status g m lx s
  unfolding run
  run_fuel zero g m lx s h k = absurd (omega arith)
  run_fuel (suc f) zero m lx s h k = absurd (omega arith)
  run_fuel (suc f) (suc g) m lx [] h k = refl
  run_fuel (suc f) (suc g) m lx (c ∷ cs) h k =
      let less = step-Shrinks m lx c cs in
      let (m', lx', rest) = step getenv status m lx c cs in
      run_fuel f g m' lx' rest (omega arith) (omega arith)

  -- The run of the tokeniser from a program point, with as much fuel as it needs.
  unfoldable pub exec : Round → Option (List Bytes)
  exec (m, lx, s) = run getenv status (suc (length s)) m lx s

  pub exec-nil : (m : Mode) (lx : Lexer) → exec (m, lx, []) ≡ some (flush lx).tokens
  unfolding exec run
  exec-nil m lx = refl

  pub exec-cons :
      (m : Mode) (lx : Lexer) (c : ℕ) (cs : Bytes)
      → exec (m, lx, c ∷ cs) ≡ exec (step getenv status m lx c cs)
  unfolding exec run
  exec-cons m lx c cs =
      let less = step-Shrinks m lx c cs in
      let (m', lx', rest) = step getenv status m lx c cs in
      run_fuel (suc (length cs)) (suc (length rest)) m' lx' rest (omega arith) (omega arith)

  pub parse_input-exec :
      (c : ℕ) (cs : Bytes)
      → parse_input getenv status (c ∷ cs) ≡ exec (plain, record { tokens = []; tbuf = [] }, c ∷ cs)
  unfolding parse_input exec
  parse_input-exec c cs = refl
