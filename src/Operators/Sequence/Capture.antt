-- ===== src/Operators/Sequence/Capture.antt =====
-- The operators `|>`, `?>`, `|` and `~>` of `execute_sequence`: what they run, and what they run
-- although it was not to be run.
use las_shell.Prelude.{
  String, ◌≡◌, refl, ◌∙◌, Bytes, codes, true, false, Option, none, some, List, [], ◌∷◌,
}
use las_shell.Prelude.Int.{ℤ, pos, is_zero}
use las_shell.CString.Libc.{str_eq, strcmp}
use las_shell.Operators.Nodes.{Node}
use las_shell.Operators.Shell.{Shell}
use las_shell.Operators.Sequence.{
  run_command, run_node, after_operator, round, execute_from, execute_sequence,
}
use las_shell.Operators.Sequence.Total.{exec, exec-round}
use las_shell.Operators.Sequence.Logic.{node}

abbrev pub group : Bytes → Option Bytes → Node
group body op = record {
  args = [];
  is_group = true;
  group_body = body;
  background = false;
  operator = op;
}

abbrev pub op : String → Option Bytes
op s = some (codes s)

module _ {World : Type 0} (sh : Shell World) where
  skipped :
      (a b : List Bytes) (y : Bytes) (o : Option Bytes) (tail : List Node) (last : ℤ) (w : World)
      → is_zero last ≡ false
      → exec sh (record {
        prev = some (node a (op "&&"));
        rest = node (y ∷ b) o ∷ tail;
        last = last;
        world = w;
      })
        ≡ exec sh (record { prev = some (node (y ∷ b) o); rest = tail; last = last; world = w })
  unfolding round after_operator str_eq strcmp
  skipped a b y o tail last w h =
      exec-round sh (some (node a (op "&&"))) (node (y ∷ b) o) tail last w ∙ rw h refl

  first :
      (a : List Bytes) (x : Bytes) (tail : List Node) (w : World)
      → execute_sequence sh (node (x ∷ a) (op "&&") ∷ tail) w
        ≡ exec sh (record {
          prev = some (node (x ∷ a) (op "&&"));
          rest = tail;
          last = (run_command sh false (pos 0) (x ∷ a) w).0;
          world = (run_command sh false (pos 0) (x ∷ a) w).1;
        })
  unfolding execute_sequence execute_from round run_node str_eq strcmp
  first a x tail w = refl

  -- In `a && b |> f` the command `b` is run, with its output logged, although `a` failed; and in
  -- `a && b ?> c` it is run and put through the gate.
  pub execute_sequence_captures_skipped :
      (a b c : List Bytes) (x y f : Bytes) (w : World)
      → is_zero (run_command sh false (pos 0) (x ∷ a) w).0 ≡ false
      → let w' = (run_command sh false (pos 0) (x ∷ a) w).1 in
        (execute_sequence sh
            (node (x ∷ a) (op "&&") ∷ node (y ∷ b) (op "|>") ∷ node (f ∷ []) none ∷ [])
            w
          ≡ some (sh.csv_log (y ∷ b) f w'))
        × (execute_sequence sh
              (node (x ∷ a) (op "&&") ∷ node (y ∷ b) (op "?>") ∷ node (f ∷ c) none ∷ [])
              w
            ≡ some (sh.risk_gate (y ∷ b) (f ∷ c) w'))
  unfolding execute_from round after_operator str_eq strcmp
  execute_sequence_captures_skipped a b c x y f w h =
      let r = run_command sh false (pos 0) (x ∷ a) w in
      let log = node (f ∷ []) none ∷ [] in
      let gate = node (f ∷ c) none ∷ [] in
      (
        first a x (node (y ∷ b) (op "|>") ∷ log) w ∙ skipped (x ∷ a) b y (op "|>") log r.0 r.1 h,
        first a x (node (y ∷ b) (op "?>") ∷ gate) w ∙ skipped (x ∷ a) b y (op "?>") gate r.0 r.1 h,
      )
