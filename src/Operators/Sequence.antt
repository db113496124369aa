-- ===== src/Operators/Sequence.antt =====
-- src/operators.c: `execute_backtest_op` and `execute_sequence`. The arrays for a command's text
-- hold 4,095 bytes, more than a line of the shell.
pub mod Total
pub mod Logic
pub mod Capture
use mathlib.Core.Option
use las_shell.Prelude.{
  ℕ, zero, suc, ◌-◌, Bytes, codes, peek, length, take, drop, Bool, true, false, not, ◌&&◌, ◌||◌,
  Option, none, some, List, [], ◌∷◌, ◌++◌, ◌==◌, if◌then◌else◌,
}
use las_shell.Prelude.Int.{ℤ, pos, is_zero}
use las_shell.CString.Libc.{str_eq}
use las_shell.CString.Compare.{my_strcmp}
use las_shell.Environment.Getenv.{expand_args}
use las_shell.Alias.Expand.{expand_aliases}
use las_shell.Operators.Nodes.{Node}
use las_shell.Operators.Jobs.{add_job, clean_jobs}
use las_shell.Operators.Backtest.{parse_backtest_date}
use las_shell.Operators.Shell.{Shell}
use las_shell.Operators.Wait.{Waited, not_an_operator, failed, handled, handle_market_wait_operator}

-- The arguments with a blank between them.
unfoldable pub join_args : List Bytes → Bytes
join_args [] = []
join_args (a ∷ []) = a
join_args (a ∷ b ∷ args) = a ++ (b' ' ∷ join_args (b ∷ args))

abbrev pub is_op : Option Bytes → Bytes → Bool
is_op none op = false
is_op (some o) op = str_eq o op

abbrev pub first_arg : Node → Option Bytes
first_arg n = elim n.args [ [] ↦ none | a ∷ args ↦ some a ]

abbrev pub has_args : Node → Bool
has_args n = elim n.args [ [] ↦ false | a ∷ args ↦ true ]

-- The operators whose left side is run by the operator itself.
abbrev pub is_capturing : Option Bytes → Bool
is_capturing o =
    is_op o (codes "|>") || is_op o (codes "?>") || is_op o (codes "~>") || is_op o (codes "|")

abbrev pub changes_env : Bytes → Bool
changes_env name =
    str_eq name (codes "setenv")
    || str_eq name (codes "unsetenv")
    || str_eq name (codes "setmarket")
    || str_eq name (codes "setbroker")
    || str_eq name (codes "setaccount")
    || str_eq name (codes "setcapital")

module _ {World : Type 0} (sh : Shell World) where
  abbrev setenv : Bytes → Bytes → World → World
  setenv name value w = sh.change_env (codes "setenv" ∷ name ∷ value ∷ []) w

  abbrev pub run_backtest : List Bytes → Bytes → Bytes → World → ℤ × World
  run_backtest left first last w =
      let w1 =
        setenv (codes "BACKTEST_END") last
          (setenv (codes "BACKTEST_START") first (setenv (codes "BACKTEST_MODE") (codes "1") w)) in
      let w2 = sh.os_setenv (codes "BACKTEST_END") last (
        sh.os_setenv (codes "BACKTEST_START") first
          (sh.os_setenv (codes "BACKTEST_MODE") (codes "1") w1)) in
      let (status, w3) = sh.command_line (join_args left) w2 in
      (
        status,
        sh.os_setenv (codes "BACKTEST_MODE") (codes "0")
            (setenv (codes "BACKTEST_MODE") (codes "0") w3),
      )

  unfoldable pub execute_backtest_op : List Bytes → Option Bytes → World → ℤ × World
  execute_backtest_op left range w = elim (parse_backtest_date range) [
    | none ↦ (pos 1, w)
    | some (first, last) ↦ run_backtest left first last w
  ]

  -- The job of a process that was started in the background.
  abbrev pub start_job : Bytes → Option ℕ × World → ℤ × World
  start_job text (none, w) = (pos 1, w)
  start_job text (some pid, w) = (pos 0, sh.set_jobs (add_job pid text (sh.jobs w)) w)

  abbrev pub wait_status : Option ℤ × World → ℤ × World
  wait_status (none, w) = (pos 1, w)
  wait_status (some status, w) = (status, w)

  abbrev pub builtin_or_program : List Bytes → Option ℤ × World → ℤ × World
  builtin_or_program args (some status, w) = (status, w)
  builtin_or_program args (none, w) = wait_status (sh.run_program args w)

  -- A command behind the `@` operators; with none left the last status stays.
  unfoldable pub dispatch : ℤ → List Bytes → World → ℤ × World
  dispatch last [] w = (last, w)
  dispatch last (name ∷ args) w =
      if changes_env name
      then (pos 0, sh.change_env (name ∷ args) w)
      else builtin_or_program (name ∷ args) (sh.builtin (name ∷ args) w)

  abbrev pub at_time : ℤ → List Bytes → World → ℤ × World
  at_time last [] w = dispatch last [] w
  at_time last (a ∷ args) w =
      if peek a == b'@'
      then (let (ended, w') = sh.wait_until a w in
          if ended then dispatch last args w' else (pos 1, w'))
      else dispatch last (a ∷ args) w

  abbrev pub after_wait : ℤ → List Bytes → Waited × World → ℤ × World
  after_wait last args (not_an_operator, w) = at_time last args w
  after_wait last args (failed, w) = (pos 1, w)
  after_wait last args (handled rest, w) = dispatch last rest w

  -- A command in the foreground: its aliases, its variables, the `@` operators, and the command.
  unfoldable pub run_foreground : ℤ → List Bytes → World → ℤ × World
  run_foreground last args w =
      let text = join_args args in
      let alias_text = expand_aliases (sh.aliases w) text in
      let expanded = expand_args (sh.env w) (sh.os_getenv w) args in
      if not (is_zero (my_strcmp alias_text text))
      then sh.command_line alias_text w
      else after_wait last expanded (handle_market_wait_operator sh expanded w)

  unfoldable pub run_group : Bool → Bytes → World → ℤ × World
  run_group true body w = start_job body (sh.fork_group body w)
  run_group false body w = sh.group_line body w

  unfoldable pub run_command : Bool → ℤ → List Bytes → World → ℤ × World
  run_command background last args w =
      let w' = sh.set_jobs (clean_jobs (sh.ended w) (sh.jobs w)) w in
      if background
      then start_job (join_args args) (sh.fork_command args w')
      else run_foreground last args w'

  -- `prev`, `node` with what follows it, `last_status`, and the state.
  pub record Position : Type 0 where
    pub prev : Option Node
    pub rest : List Node
    pub last : ℤ
    pub world : World

  abbrev pub move : Node → List Node → ℤ × World → Position
  move prev rest (last, w) = record { prev = some prev; rest = rest; last = last; world = w }

  -- A node that no operator in front of it has taken.
  unfoldable pub run_node : Node → List Node → ℤ → World → Position
  run_node node rest last w =
      let background = node.background || is_op node.operator (codes "&") in
      if node.is_group
      then move node rest (run_group background node.group_body w)
      else if is_capturing node.operator
      then move node rest (last, w)
      else move node rest (run_command background last node.args w)

  abbrev pub run_csv_log : Node → Option Bytes → ℤ → World → ℤ × World
  run_csv_log prev none last w = (last, w)
  run_csv_log prev (some file) last w = sh.csv_log prev.args file w

  -- `left ?> checker`, `left ?> checker | next` and `left ?> checker | next |> file`.
  abbrev pub gate_plain : Node → Node → List Node → World → Position
  gate_plain prev node rest w =
      move node rest (if has_args node then sh.risk_gate prev.args node.args w else (pos 1, w))

  abbrev pub gate_logged : Node → Node → Node → List Node → World → Position
  gate_logged prev node next [] w =
      move next [] (sh.risk_gate_chained prev.args node.args next.args w)
  gate_logged prev node next (file ∷ rest) w = elim (first_arg file) [
    | none ↦ move next (file ∷ rest) (sh.risk_gate_chained prev.args node.args next.args w)
    | some path ↦
        if is_op next.operator (codes "|>")
        then move file rest (sh.risk_gate_logged prev.args node.args next.args path w)
        else move next (file ∷ rest) (sh.risk_gate_chained prev.args node.args next.args w)
  ]

  abbrev pub run_gate : Node → Node → List Node → World → Position
  run_gate prev node [] w = gate_plain prev node [] w
  run_gate prev node (next ∷ rest) w =
      if has_args node && is_op node.operator (codes "|") && has_args next
      then gate_logged prev node next rest w
      else gate_plain prev node (next ∷ rest) w

  -- The tests on the operator in front of the node.
  unfoldable pub after_operator : Node → Node → List Node → ℤ → World → Position
  after_operator prev node rest last w =
      let op = prev.operator in
      if is_op op (codes "&&") && not (is_zero last)
      then move node rest (last, w)
      else if is_op op (codes "||") && is_zero last
      then move node rest (last, w)
      else if is_op op (codes "|>")
      then move node rest (run_csv_log prev (first_arg node) last w)
      else if is_op op (codes "?>")
      then run_gate prev node rest w
      else if is_op op (codes "|")
      then move node rest (if has_args node then sh.pipe_two prev.args node.args w else (last, w))
      else if is_op op (codes "~>")
      then move node rest (execute_backtest_op prev.args (first_arg node) w)
      else run_node node rest last w

  -- One round of the loop. An empty command is passed over.
  unfoldable pub round : Option Node → Node → List Node → ℤ → World → Position
  round prev node rest last w =
      if not node.is_group && not (has_args node) then move node rest (last, w) else elim prev [
        | none ↦ run_node node rest last w
        | some p ↦ after_operator p node rest last w
      ]

  -- The loop, on fuel.
  unfoldable pub execute_from : ℕ → Position → Option (ℤ × World)
  execute_from zero p = none
  execute_from (suc fuel) p = elim p.rest [
    | [] ↦ some (p.last, p.world)
    | node ∷ rest ↦ execute_from fuel (round p.prev node rest p.last p.world)
  ]

  unfoldable pub execute_sequence : List Node → World → Option (ℤ × World)
  execute_sequence nodes w =
      execute_from (suc (length nodes))
        (record { prev = none; rest = nodes; last = pos 0; world = w })
