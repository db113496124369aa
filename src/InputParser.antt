-- ===== src/InputParser.antt =====
-- src/input_parser.c: `parse_input` and `strip_quotes`. The loop's program points are the modes; one
-- step reads what one round of the innermost loop reads. The environment is `getenv`, and `status`
-- is the decimal text of `get_last_exit_status()`. The growing of the two buffers is not modelled:
-- when the allocator fails the program exits.
pub mod Run
pub mod Total
pub mod Quote
pub mod Words
use las_shell.Prelude.{
  ℕ, zero, suc, ◌+◌, ◌-◌, Bytes, peek, length, take, drop, Bool, true, false, not, ◌&&◌, ◌||◌,
  Option, none, some, List, [], ◌∷◌, ◌++◌, ltb, leb, ◌==◌, if◌then◌else◌,
}

pub data Mode : Type 0 where
  plain single double : Mode

-- `tokens` with `tok_cnt`, and `tbuf` with `t_len`.
pub record Lexer : Type 0 where
  pub tokens : List Bytes
  pub tbuf : Bytes

-- `TBUF_APPEND` for each byte of a text.
abbrev pub append : Lexer → Bytes → Lexer
append lx s = record lx { tbuf = lx.tbuf ++ s }

abbrev flushed : List Bytes → Bytes → Lexer
flushed tokens [] = record { tokens = tokens; tbuf = [] }
flushed tokens (c ∷ cs) = record { tokens = tokens ++ ((c ∷ cs) ∷ []); tbuf = [] }

-- `FLUSH_TOKEN`
unfoldable pub flush : Lexer → Lexer
flush lx = flushed lx.tokens lx.tbuf

-- `tokens[tok_cnt++] = my_strdup(op)`
abbrev pub push_token : Lexer → Bytes → Lexer
push_token lx op = record lx { tokens = lx.tokens ++ (op ∷ []) }

abbrev within : ℕ → ℕ → ℕ → Bool
within lo hi c = leb lo c && leb c hi

unfoldable pub is_name_byte : ℕ → Bool
is_name_byte c = within b'A' b'Z' c || within b'a' b'z' c || within b'0' b'9' c || c == b'_'

unfoldable pub is_blank : ℕ → Bool
is_blank c = c == b' ' || c == b'\t' || c == b'\n' || c == b'\r'

-- `while (*p && test(*p) && vlen < limit) vname[vlen++] = *p++;`
unfoldable pub span_limit : (ℕ → Bool) → ℕ → Bytes → Bytes × Bytes
span_limit test zero s = ([], s)
span_limit test (suc n) [] = ([], [])
span_limit test (suc n) (c ∷ cs) =
    let (name, rest) = span_limit test n cs in if test c then (c ∷ name, rest) else ([], c ∷ cs)

-- The last byte of `tbuf`, 0 if it is empty.
unfoldable pub last_byte : Bytes → ℕ
last_byte [] = 0
last_byte (c ∷ []) = c
last_byte (c ∷ d ∷ cs) = last_byte (d ∷ cs)

-- `if (*p == ch) p++`
abbrev pub skip_byte : ℕ → Bytes → Bytes
skip_byte ch s = if peek s == ch then drop 1 s else s

abbrev pub value_of : Option Bytes → Bytes
value_of none = []
value_of (some v) = v

-- A round of a loop: where it goes on, with what, and what is left to read.
abbrev pub Round : Type 0
Round = Mode × Lexer × Bytes

-- Behind a quote that closes a single-quoted text.
unfoldable pub close_single : Lexer → Bytes → Round
close_single lx cs =
    if peek cs == b'\\' && peek (drop 1 cs) == b'\''
    then (single, append lx (b'\'' ∷ []), skip_byte b'\'' (drop 2 cs))
    else (plain, lx, cs)

unfoldable pub step_single : Lexer → ℕ → Bytes → Round
unfolding close_single
step_single lx c cs = if c == b'\'' then close_single lx cs else (single, append lx (c ∷ []), cs)

module _ (getenv : Bytes → Option Bytes) (status : Bytes) where
  -- `${NAME}` inside double quotes, read from behind the `{`.
  unfoldable pub braced : Lexer → Bytes → Round
  braced lx s =
      let (name, rest) = span_limit (λ c. not (c == b'}')) 255 s in
      (
        double,
        (if ltb 0 (length name) then append lx (value_of (getenv name)) else lx),
        skip_byte b'}' rest,
      )

  -- `$NAME` inside double quotes, read from behind the `$`.
  unfoldable pub bare : Lexer → Bytes → Round
  bare lx s =
      let (name, rest) = span_limit is_name_byte 255 s in
      (
        double,
        (if ltb 0 (length name) then append lx (value_of (getenv name)) else append lx (b'$' ∷ [])),
        rest,
      )

  unfoldable pub step_double : Lexer → ℕ → Bytes → Round
  step_double lx c cs =
      if c == b'"'
      then (plain, lx, cs)
      else if c == b'$' && peek cs == b'?'
      then (double, append lx status, drop 1 cs)
      else if c == b'$' && not (peek cs == 0) && not (peek cs == b' ')
      then (if peek cs == b'{' then braced lx (drop 1 cs) else bare lx cs)
      else (double, append lx (c ∷ []), cs)

  unfoldable pub step_plain : Lexer → ℕ → Bytes → Round
  step_plain lx c cs =
      if c == b'\''
      then (single, lx, cs)
      else if c == b'"'
      then (double, lx, cs)
      else if is_blank c
      then (plain, flush lx, cs)
      else if c == b'>' && last_byte lx.tbuf == b'?'
      then (plain, append lx (c ∷ []), cs)
      else if (c == b'>' || c == b'<') && peek cs == b'='
      then (plain, append lx (c ∷ b'=' ∷ []), drop 1 cs)
      else if c == b'>' || c == b'<'
      then (if c == b'>' && peek cs == b'>'
          then (plain, push_token (flush lx) (b'>' ∷ b'>' ∷ []), drop 1 cs)
          else (plain, push_token (flush lx) (c ∷ []), cs))
      else if c == b'$' && peek cs == b'?'
      then (plain, append lx status, drop 1 cs)
      else (plain, append lx (c ∷ []), cs)

  unfoldable pub step : Mode → Lexer → ℕ → Bytes → Round
  step plain lx c cs = step_plain lx c cs
  step single lx c cs = step_single lx c cs
  step double lx c cs = step_double lx c cs

  -- The loops, on fuel, up to the last `FLUSH_TOKEN`.
  unfoldable pub run : ℕ → Mode → Lexer → Bytes → Option (List Bytes)
  run zero m lx s = none
  run (suc fuel) m lx [] = some (flush lx).tokens
  run (suc fuel) m lx (c ∷ cs) = let (m', lx', rest) = step m lx c cs in run fuel m' lx' rest

  -- `none` is the NULL for an empty input.
  unfoldable pub parse_input : Bytes → Option (List Bytes)
  unfolding run
  parse_input [] = none
  parse_input (c ∷ cs) =
      run (suc (suc (length cs))) plain (record { tokens = []; tbuf = [] }) (c ∷ cs)

unfoldable pub strip_quotes : Bytes → Bytes
unfolding last_byte
strip_quotes token =
    if leb 2 (length token)
      && (peek token == b'"' && last_byte token == b'"'
          || peek token == b'\'' && last_byte token == b'\'')
    then take (length token - 2) (drop 1 token)
    else token
