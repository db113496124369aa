-- ===== src/Operators/Sequence/Logic.antt =====
-- `execute_sequence` on commands with `&&`, `||` and `;` is the evaluation of a list whose operators
-- group to the left.
use las_shell.Prelude.{
  ◌≡◌, ◌≢◌, refl, ap, ◌∙◌, Bytes, codes, false, Option, none, some, List, [], ◌∷◌, if◌then◌else◌,
  Bool-cases, inl, inr, ◌⊎◌,
}
use las_shell.Prelude.Int.{ℤ, pos, is_zero}
use las_shell.CString.Libc.{str_eq, strcmp}
use las_shell.Operators.Nodes.{Node}
use las_shell.Operators.Shell.{Shell}
use las_shell.Operators.Sequence.{
  run_command, run_node, after_operator, round, execute_from, execute_sequence,
}
use las_shell.Operators.Sequence.Total.{exec, exec-round}

-- `run a` is a command by its arguments; the others are two sides with an operator between them.
pub data AndOr : Type 0 where
  run : List Bytes → AndOr
  both either next : AndOr → List Bytes → AndOr

-- No command is empty.
abbrev pub IsList : AndOr → Type 0
IsList (run a) = a ≢ []
IsList (both t a) = IsList t × (a ≢ [])
IsList (either t a) = IsList t × (a ≢ [])
IsList (next t a) = IsList t × (a ≢ [])

abbrev pub node : List Bytes → Option Bytes → Node
node args op = record {
  args = args;
  is_group = false;
  group_body = [];
  background = false;
  operator = op;
}

-- The nodes of a list, with an operator behind them, in front of others.
abbrev pub nodes_of : AndOr → Option Bytes → List Node → List Node
nodes_of (run a) op tail = node a op ∷ tail
nodes_of (both t a) op tail = nodes_of t (some (codes "&&")) (node a op ∷ tail)
nodes_of (either t a) op tail = nodes_of t (some (codes "||")) (node a op ∷ tail)
nodes_of (next t a) op tail = nodes_of t (some (codes ";")) (node a op ∷ tail)

abbrev pub last_args : AndOr → List Bytes
last_args (run a) = a
last_args (both t a) = a
last_args (either t a) = a
last_args (next t a) = a

module _ {World : Type 0} (sh : Shell World) where
  abbrev command : List Bytes → ℤ × World → ℤ × World
  command a (last, w) = run_command sh false last a w

  -- The reference: the right side runs when the status of the left one says so.
  abbrev if_done : ℤ × World → List Bytes → ℤ × World
  if_done r a = if is_zero r.0 then command a r else r

  abbrev if_failed : ℤ × World → List Bytes → ℤ × World
  if_failed r a = if is_zero r.0 then r else command a r

  unfoldable pub evaluate : AndOr → World → ℤ × World
  evaluate (run a) w = command a (pos 0, w)
  evaluate (both t a) w = if_done (evaluate t w) a
  evaluate (either t a) w = if_failed (evaluate t w) a
  evaluate (next t a) w = command a (evaluate t w)

  -- The operators that do not capture what is on their left.
  abbrev IsLogic : Option Bytes → Type 0
  IsLogic none = Unit
  IsLogic (some op) = (op ≡ codes "&&") ⊎ ((op ≡ codes "||") ⊎ (op ≡ codes ";"))

  run_node-logic :
      (a : List Bytes) (op : Option Bytes) (tail : List Node) (last : ℤ) (w : World)
      → IsLogic op
      → run_node sh (node a op) tail last w ≡ record {
        prev = some (node a op);
        rest = tail;
        last = (run_command sh false last a w).0;
        world = (run_command sh false last a w).1;
      }
  unfolding run_node str_eq strcmp
  run_node-logic a none tail last w h = refl
  run_node-logic a (some op) tail last w (inl e) = rw e refl
  run_node-logic a (some op) tail last w (inr (inl e)) = rw e refl
  run_node-logic a (some op) tail last w (inr (inr e)) = rw e refl

  abbrev at : List Bytes → Option Bytes → List Node → ℤ × World → Option (ℤ × World)
  at a op tail r =
      exec sh (record { prev = some (node a op); rest = tail; last = r.0; world = r.1 })

  exec-first :
      (a : List Bytes) (op : Option Bytes) (tail : List Node) (last : ℤ) (w : World)
      → a ≢ []
      → IsLogic op
      → exec sh (record { prev = none; rest = node a op ∷ tail; last = last; world = w })
        ≡ at a op tail (command a (last, w))
  unfolding round
  exec-first [] op tail last w n h = absurd (n refl)
  exec-first (x ∷ xs) op tail last w n h =
      exec-round sh none (node (x ∷ xs) op) tail last w
      ∙ ap (exec sh) (run_node-logic (x ∷ xs) op tail last w h)

  exec-both :
      (b a : List Bytes) (op : Option Bytes) (tail : List Node) (last : ℤ) (w : World)
      → a ≢ []
      → IsLogic op
      → at b (some (codes "&&")) (node a op ∷ tail) (last, w) ≡ at a op tail (if_done (last, w) a)
  unfolding round after_operator str_eq strcmp
  exec-both b [] op tail last w n h = absurd (n refl)
  exec-both b (x ∷ xs) op tail last w n h =
      exec-round sh (some (node b (some (codes "&&")))) (node (x ∷ xs) op) tail last w
      ∙ elim (Bool-cases (is_zero last)) [
        | inl zero ↦ rw zero (ap (exec sh) (run_node-logic (x ∷ xs) op tail last w h))
        | inr failed ↦ rw failed refl
      ]

  exec-either :
      (b a : List Bytes) (op : Option Bytes) (tail : List Node) (last : ℤ) (w : World)
      → a ≢ []
      → IsLogic op
      → at b (some (codes "||")) (node a op ∷ tail) (last, w) ≡ at a op tail (if_failed (last, w) a)
  unfolding round after_operator str_eq strcmp
  exec-either b [] op tail last w n h = absurd (n refl)
  exec-either b (x ∷ xs) op tail last w n h =
      exec-round sh (some (node b (some (codes "||")))) (node (x ∷ xs) op) tail last w
      ∙ elim (Bool-cases (is_zero last)) [
        | inl zero ↦ rw zero refl
        | inr failed ↦ rw failed (ap (exec sh) (run_node-logic (x ∷ xs) op tail last w h))
      ]

  exec-next :
      (b a : List Bytes) (op : Option Bytes) (tail : List Node) (last : ℤ) (w : World)
      → a ≢ []
      → IsLogic op
      → at b (some (codes ";")) (node a op ∷ tail) (last, w) ≡ at a op tail (command a (last, w))
  unfolding round after_operator str_eq strcmp
  exec-next b [] op tail last w n h = absurd (n refl)
  exec-next b (x ∷ xs) op tail last w n h =
      exec-round sh (some (node b (some (codes ";")))) (node (x ∷ xs) op) tail last w
      ∙ ap (exec sh) (run_node-logic (x ∷ xs) op tail last w h)

  exec-evaluate :
      (t : AndOr) (op : Option Bytes) (tail : List Node) (w : World)
      → IsList t
      → IsLogic op
      → exec sh (record { prev = none; rest = nodes_of t op tail; last = pos 0; world = w })
        ≡ at (last_args t) op tail (evaluate t w)
  unfolding evaluate
  exec-evaluate (run a) op tail w n h = exec-first a op tail (pos 0) w n h
  exec-evaluate (both t a) op tail w (k, n) h =
      exec-evaluate t (some (codes "&&")) (node a op ∷ tail) w k (inl refl)
      ∙ exec-both (last_args t) a op tail (evaluate t w).0 (evaluate t w).1 n h
  exec-evaluate (either t a) op tail w (k, n) h =
      exec-evaluate t (some (codes "||")) (node a op ∷ tail) w k (inr (inl refl))
      ∙ exec-either (last_args t) a op tail (evaluate t w).0 (evaluate t w).1 n h
  exec-evaluate (next t a) op tail w (k, n) h =
      exec-evaluate t (some (codes ";")) (node a op ∷ tail) w k (inr (inr refl))
      ∙ exec-next (last_args t) a op tail (evaluate t w).0 (evaluate t w).1 n h

  -- A list of commands, none of them empty, with `&&`, `||` and `;` between them is executed like the
  -- tree in which the operators group to the left: `&&` runs its right side only if the status of all
  -- on its left is 0, `||` only if it is not, and a side that is not run leaves the status as it was.
  pub execute_sequence-evaluate :
      (t : AndOr) (w : World)
      → IsList t
      → execute_sequence sh (nodes_of t none []) w ≡ some (evaluate t w)
  unfolding execute_sequence execute_from
  execute_sequence-evaluate t w h = exec-evaluate t none [] w h tt
