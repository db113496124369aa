-- ===== src/Operators/Shell.antt =====
-- What `execute_sequence` calls in the other parts of the shell and in the system: an interface over
-- the shell's state. A status is that of the C function; `none` is a failed `fork` or, of a builtin,
-- that there is none of this name.
use las_shell.Prelude.{ℕ, Bytes, Bool, Option, List}
use las_shell.Prelude.Int.{ℤ}
use las_shell.Alias.Table.{Alias}
use las_shell.Operators.Jobs.{JobTable}

pub record Shell (World : Type 0) : Type 0 where
  -- The shell's own variables, the process's environment, the aliases and the jobs.
  pub env : World → List Bytes
  pub os_getenv : World → Bytes → Option Bytes
  pub os_setenv : Bytes → Bytes → World → World
  pub aliases : World → List Alias
  pub jobs : World → JobTable
  pub set_jobs : JobTable → World → World
  pub ended : World → ℕ → Bool
  -- `execute_command_line`, `execute_command_line_env`, `shell_builtins`, and `setenv` with its kin.
  pub command_line : Bytes → World → ℤ × World
  pub group_line : Bytes → World → ℤ × World
  pub builtin : List Bytes → World → Option ℤ × World
  pub change_env : List Bytes → World → World
  -- `fork` and `execvp` in the foreground, and in the background, where the result is the process.
  pub run_program : List Bytes → World → Option ℤ × World
  pub fork_command : List Bytes → World → Option ℕ × World
  pub fork_group : Bytes → World → Option ℕ × World
  -- The operators of redirection.c, and a pipe between two commands.
  pub csv_log : List Bytes → Bytes → World → ℤ × World
  pub risk_gate : List Bytes → List Bytes → World → ℤ × World
  pub risk_gate_chained : List Bytes → List Bytes → List Bytes → World → ℤ × World
  pub risk_gate_logged : List Bytes → List Bytes → List Bytes → Bytes → World → ℤ × World
  pub pipe_two : List Bytes → List Bytes → World → ℤ × World
  -- The calendar, and the waits: whether the wait ended by itself.
  pub exchange_exists : World → Bytes → Bool
  pub next_open_time : World → Bytes → ℕ
  pub next_close_time : World → Bytes → ℕ
  pub wait_until_epoch : ℕ → World → Bool × World
  pub wait_until : Bytes → World → Bool × World
