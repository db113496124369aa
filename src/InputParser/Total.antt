-- ===== src/InputParser/Total.antt =====
-- `parse_input` terminates, and none of its tokens is empty.
use las_shell.Prelude.{
  ℕ, zero, suc, ◌<◌, ◌≡◌, ◌≢◌, refl, Bytes, length, Option, some, List, [], ◌∷◌, ◌++◌, arith, All,
  All-append,
}
use las_shell.InputParser.{
  Mode, plain, single, double, Lexer, flushed, flush, Round, step_single, braced, bare, step_double,
  step_plain, step, run, parse_input,
}
use las_shell.InputParser.Run.{step-Shrinks}

abbrev pub NonEmpty : Bytes → Type 0
NonEmpty t = t ≢ []

abbrev pub Clean : List Bytes → Type 0
Clean = All NonEmpty

cons_ne : (c : ℕ) (cs : Bytes) → NonEmpty (c ∷ cs)
cons_ne c cs e = ground arith

Clean-snoc : (ts : List Bytes) (t : Bytes) → Clean ts → NonEmpty t → Clean (ts ++ (t ∷ []))
Clean-snoc ts t h k = All-append NonEmpty ts (t ∷ []) h (k, tt)

flushed-Clean : (ts : List Bytes) (b : Bytes) → Clean ts → Clean (flushed ts b).tokens
flushed-Clean ts [] h = h
flushed-Clean ts (c ∷ cs) h = Clean-snoc ts (c ∷ cs) h (cons_ne c cs)

flush-Clean : (lx : Lexer) → Clean lx.tokens → Clean (flush lx).tokens
unfolding flush
flush-Clean lx h = flushed-Clean lx.tokens lx.tbuf h

abbrev CleanRound : Round → Type 0
CleanRound r = Clean r.1.tokens

step_single-Clean :
    (lx : Lexer) (c : ℕ) (cs : Bytes) → Clean lx.tokens → CleanRound (step_single lx c cs)
unfolding step_single
step_single-Clean lx c cs h = ground arith

module _ (getenv : Bytes → Option Bytes) (status : Bytes) where
  step_double-Clean :
      (lx : Lexer) (c : ℕ) (cs : Bytes)
      → Clean lx.tokens
      → CleanRound (step_double getenv status lx c cs)
  unfolding step_double braced bare
  step_double-Clean lx c cs h = ground arith

  step_plain-Clean :
      (lx : Lexer) (c : ℕ) (cs : Bytes)
      → Clean lx.tokens
      → CleanRound (step_plain getenv status lx c cs)
  unfolding step_plain
  step_plain-Clean lx c cs h =
      let f = flush-Clean lx h in
      ground (
        arith,
        f,
        Clean-snoc (flush lx).tokens (c ∷ []) f (cons_ne c []),
        Clean-snoc (flush lx).tokens (b'>' ∷ b'>' ∷ []) f (cons_ne b'>' (b'>' ∷ [])),
      )

  step-Clean :
      (m : Mode) (lx : Lexer) (c : ℕ) (cs : Bytes)
      → Clean lx.tokens
      → CleanRound (step getenv status m lx c cs)
  unfolding step
  step-Clean plain lx c cs h = step_plain-Clean lx c cs h
  step-Clean single lx c cs h = step_single-Clean lx c cs h
  step-Clean double lx c cs h = step_double-Clean lx c cs h

  run-Clean :
      (f : ℕ) (m : Mode) (lx : Lexer) (s : Bytes)
      → length s < f
      → Clean lx.tokens
      → (ts : List Bytes) × (run getenv status f m lx s ≡ some ts) × Clean ts
  unfolding run
  run-Clean zero m lx s l h = absurd (omega arith)
  run-Clean (suc f) m lx [] l h = ((flush lx).tokens, refl, flush-Clean lx h)
  run-Clean (suc f) m lx (c ∷ cs) l h =
      let less = step-Shrinks getenv status m lx c cs in
      let clean = step-Clean m lx c cs h in
      let (m', lx', rest) = step getenv status m lx c cs in
      run-Clean f m' lx' rest (omega arith) clean

  -- On every line but the empty one the tokeniser returns a list of tokens, none of them empty.
  pub parse_input-Clean :
      (s : Bytes) → s ≢ [] → (ts : List Bytes) × (parse_input getenv status s ≡ some ts) × Clean ts
  unfolding parse_input
  parse_input-Clean [] h = absurd (h refl)
  parse_input-Clean (c ∷ cs) h =
      run-Clean (suc (suc (length cs))) plain (record { tokens = []; tbuf = [] }) (c ∷ cs)
        (omega arith) tt
