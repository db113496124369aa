-- ===== src/Environment/Pieces.antt =====
-- The expansion of a line without a buffer: the piece that each round writes, and the pieces joined.
use las_shell.Prelude.{
  ℕ, zero, suc, ◌-◌, Bytes, codes, length, take, Option, none, some, [], ◌∷◌, ◌++◌, List, ◌==◌,
  if◌then◌else◌,
}
use las_shell.InputParser.{last_byte}
use las_shell.Environment.Getenv.{or_empty, lookup_var}
use las_shell.Environment.Line.{
  Mode, outer, single, double, variable, value_or, starts_variable, is_tilde,
}

-- The next mode, what is written, and the rest of the line.
abbrev pub Piece : Type 0
Piece = Mode × Bytes × Bytes

abbrev pub escaped_piece : Bytes → Piece
escaped_piece [] = (double, b'\\' ∷ [], [])
escaped_piece (d ∷ ds) = (double, b'\\' ∷ d ∷ [], ds)

module _ (env : List Bytes) (os_getenv : Bytes → Option Bytes) where
  abbrev pub value_text : Bytes → Option Bytes → Bytes
  value_text [] default = b'$' ∷ []
  value_text (c ∷ cs) default = or_empty (value_or (lookup_var env os_getenv (c ∷ cs)) default)

  unfoldable pub variable_piece : Mode → Bytes → Piece
  variable_piece m s = (m, value_text (variable s).0 (variable s).1.0, (variable s).1.1)

  abbrev pub home_text : Option Bytes → ℕ → Bytes
  home_text none c = c ∷ []
  home_text (some home) c = home

  unfoldable pub piece : Mode → ℕ → ℕ → Bytes → Piece
  unfolding variable_piece
  piece outer prev c cs =
      if c == b'\''
      then (single, c ∷ [], cs)
      else if c == b'"'
      then (double, c ∷ [], cs)
      else if is_tilde prev c cs
      then (outer, home_text (lookup_var env os_getenv (codes "HOME")) c, cs)
      else if starts_variable c cs
      then variable_piece outer cs
      else (outer, c ∷ [], cs)
  piece single prev c cs = (if c == b'\'' then outer else single, c ∷ [], cs)
  piece double prev c cs =
      if c == b'"'
      then (outer, c ∷ [], cs)
      else if c == b'\\'
      then escaped_piece cs
      else if starts_variable c cs
      then variable_piece double cs
      else (double, c ∷ [], cs)

  unfoldable pub expand_from : ℕ → Mode → ℕ → Bytes → Bytes
  unfolding piece
  expand_from zero m prev s = []
  expand_from (suc fuel) m prev [] = []
  expand_from (suc fuel) m prev (c ∷ cs) =
      let (m', written, rest) = piece m prev c cs in
      written
      ++ expand_from fuel m' (last_byte (take (suc (length cs) - length rest) (c ∷ cs))) rest

  unfoldable pub expanded : Bytes → Bytes
  unfolding expand_from
  expanded line = expand_from (suc (length line)) outer b' ' line
