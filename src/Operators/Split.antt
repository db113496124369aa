-- ===== src/Operators/Split.antt =====
-- src/operators.c: `split_on_operators`. An element of the result is an operator or the text of a
-- command; like the source, only its bytes tell them apart. The array for the result has 1,024
-- pointers, and a line of the shell is shorter.
pub mod Kept
pub mod Operand
pub mod Chain
use las_shell.Prelude.{
  ℕ, zero, suc, ◌-◌, Bytes, peek, length, take, drop, Bool, true, false, not, ◌&&◌, ◌||◌, Option,
  none, some, List, [], ◌∷◌, ◌++◌, ltb, ◌==◌, if◌then◌else◌,
}

-- `quote` is 0 outside of quotes, `seg` the text from `start` to `current`, and `parts` the result.
pub record Splitter : Type 0 where
  pub quote : ℕ
  pub depth : ℕ
  pub seen : Bool
  pub seg : Bytes
  pub parts : List Bytes

-- The length of the operator that starts with `c` and goes on with `next`, 0 for none.
unfoldable pub op_len : Bool → ℕ → ℕ → ℕ
op_len seen c next =
    if c == b'?' && next == b'>'
    then 2
    else if c == b'~' && next == b'>'
    then 2
    else if c == b'|' && next == b'>'
    then 2
    else if c == b'&' && next == b'&'
    then 2
    else if c == b'|' && next == b'|'
    then 2
    else if c == b';'
    then 1
    else if c == b'&' && not (next == b'&')
    then 1
    else if seen && c == b'|' && not (next == b'|') && not (next == b'>')
    then 1
    else 0

abbrev pub is_blank : ℕ → Bool
is_blank c = c == b' ' || c == b'\t'

abbrev is_nil : Bytes → Bool
is_nil [] = true
is_nil (c ∷ cs) = false

-- Trailing blanks are cut off, but never the first byte.
unfoldable pub trim_tail : Bytes → Bytes
trim_tail [] = []
trim_tail (c ∷ cs) = let rest = trim_tail cs in if is_blank c && is_nil rest then [] else c ∷ rest

abbrev pub trim_end : Bytes → Bytes
trim_end [] = []
trim_end (c ∷ cs) = c ∷ trim_tail cs

-- The command in front of an operator or of the end, if it has any bytes.
abbrev pub close_segment : Bytes → List Bytes → List Bytes
close_segment [] parts = parts
close_segment (c ∷ cs) parts = parts ++ (trim_end (c ∷ cs) ∷ [])

abbrev pub keep : Splitter → ℕ → Splitter
keep st c = record st { seg = st.seg ++ (c ∷ []) }

abbrev pub emit_op : Splitter → Bytes → Splitter
emit_op st op = record st {
  seen = true;
  seg = [];
  parts = close_segment st.seg st.parts ++ (op ∷ []);
}

abbrev pub at_op : Splitter → ℕ → Bytes → ℕ → Splitter × Bytes
at_op st c cs zero = (keep st c, cs)
at_op st c cs (suc n) = (emit_op st (c ∷ take n cs), drop n cs)

-- One round of the loop.
unfoldable pub step : Splitter → ℕ → Bytes → Splitter × Bytes
unfolding op_len
step st c cs =
    if st.quote == 0 && (c == b'"' || c == b'\'')
    then (record (keep st c) { quote = c }, cs)
    else if not (st.quote == 0) && c == st.quote
    then (record (keep st c) { quote = 0 }, cs)
    else if not (st.quote == 0)
    then (keep st c, cs)
    else if c == b'{'
    then (record (keep st c) { depth = suc st.depth }, cs)
    else if c == b'}'
    then (record (keep st c) { depth = st.depth - 1 }, cs)
    else if ltb 0 st.depth
    then (keep st c, cs)
    else at_op st c cs (op_len st.seen c (peek cs))

-- The loop, on fuel, and the last segment.
unfoldable pub run : ℕ → Splitter → Bytes → Option (List Bytes)
unfolding step trim_tail
run zero st s = none
run (suc fuel) st [] = some (close_segment st.seg st.parts)
run (suc fuel) st (c ∷ cs) = let (st', rest) = step st c cs in run fuel st' rest

abbrev pub start : Splitter
start = record { quote = 0; depth = 0; seen = false; seg = []; parts = [] }

unfoldable pub split_on_operators : Bytes → Option (List Bytes)
unfolding run
split_on_operators input = run (suc (length input)) start input
