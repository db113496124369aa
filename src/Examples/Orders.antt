-- ===== src/Examples/Orders.antt =====
-- Lines with operators (src/operators.c) at concrete inputs.
use las_shell.Operators.Split.{trim_tail}
use las_shell.Operators.Sequence.{dispatch}
use las_shell.Environment.Getenv.{expand_args}
use las_shell.Operators.Wait.{handle_market_wait_operator}
use las_shell.Alias.Table.{find_alias}
use las_shell.Alias.Expand.{expand_once}
use las_shell.Operators.Sequence.{join_args}
use las_shell.Alias.Expand.{expand_aliases}
use las_shell.CString.Compare.{my_strcmp}
use las_shell.Operators.Sequence.{run_foreground}
use las_shell.Prelude.{
  ℕ, zero, suc, ◌≡◌, refl, Bytes, codes, true, false, not, ◌==◌, ◌||◌, Option, none, some, List, [],
  ◌∷◌, ◌++◌, arith, if◌then◌else◌,
}
use las_shell.Prelude.Int.{ℤ, pos}
use las_shell.CString.Libc.{str_eq}
use las_shell.CString.Token.{concat}
use las_shell.Operators.Split.{split_on_operators}
use las_shell.Operators.Split.Operand.{
  is_quote, is_plain, is_brace, Operand, nil, plain, quoted, group,
}
use las_shell.Operators.Split.Chain.{
  and_then, Chain, last, link, chain_text, IsChain, split_on_operators-Chain,
}
use las_shell.Operators.Split.Kept.{unblank, split_on_operators-unblank}
use las_shell.Operators.Nodes.{Node, parse_operators}
use las_shell.Operators.Nodes.Chain.{NodesOf, parse_operators-Chain}
use las_shell.Operators.Jobs.{JobTable}
use las_shell.Operators.Jobs.Slots.{Event, started, cleaned, after, IsJobTable, after-IsJobTable}
use las_shell.Operators.Backtest.{parse_backtest_date}
use las_shell.Operators.Backtest.Shape.{IsDay, parse_backtest_date-IsDay}
use las_shell.Operators.Shell.{Shell}
use las_shell.Operators.Sequence.{run_command, execute_sequence}
use las_shell.Operators.Sequence.Total.{execute_sequence_returns}
use las_shell.Operators.Sequence.Logic.{
  AndOr, run, both, either, node, nodes_of, evaluate, execute_sequence-evaluate,
}
use las_shell.Operators.Sequence.Capture.{op, execute_sequence_captures_skipped}
use las_shell.Examples.Data.{holds, only, cons_ne_nil}

-- A shell whose state is what was run in it; the program `false` fails.
abbrev Trace : Type 0
Trace = List Bytes

abbrev name_of : List Bytes → Bytes
name_of [] = []
name_of (a ∷ args) = a

abbrev status_of : Bytes → ℤ
status_of name = if str_eq name (codes "false") then pos 1 else pos 0

abbrev no_jobs : JobTable
no_jobs = record { jobs = []; next_job_id = 1 }

abbrev tracing : Shell Trace
tracing = record {
  env = λ w. [];
  os_getenv = λ w name. none;
  os_setenv = λ name value w. w;
  aliases = λ w. [];
  jobs = λ w. no_jobs;
  set_jobs = λ t w. w;
  ended = λ w pid. false;
  command_line = λ s w. (pos 0, w ++ (s ∷ []));
  group_line = λ s w. (pos 0, w ++ (s ∷ []));
  builtin = λ args w. (none, w);
  change_env = λ args w. w;
  run_program = λ args w. (some (status_of (name_of args)), w ++ (name_of args ∷ []));
  fork_command = λ args w. (some 7, w);
  fork_group = λ s w. (some 8, w);
  csv_log = λ args file w. (pos 0, w ++ (file ∷ []));
  risk_gate = λ args right w. (pos 0, w ++ (name_of right ∷ []));
  risk_gate_chained = λ args right next w. (pos 0, w ++ (name_of next ∷ []));
  risk_gate_logged = λ args right next file w. (pos 0, w ++ (file ∷ []));
  pipe_two = λ args right w. (pos 0, w ++ (name_of right ∷ []));
  exchange_exists = λ w name. false;
  next_open_time = λ w name. 0;
  next_close_time = λ w name. 0;
  wait_until_epoch = λ time w. (true, w);
  wait_until = λ token w. (true, w);
}

abbrev word : Bytes → List Bytes
word s = s ∷ []

-- `false && echo || date`
abbrev fallback : AndOr
fallback = either (both (run (word (codes "false"))) (word (codes "echo"))) (word (codes "date"))

fallback_runs : evaluate tracing fallback [] ≡ (pos 0, codes "false" ∷ codes "date" ∷ [])
unfolding evaluate run_command run_foreground my_strcmp expand_aliases join_args expand_once
    find_alias handle_market_wait_operator expand_args dispatch
fallback_runs = refl

execute_sequence-evaluate_example :
    execute_sequence tracing (nodes_of fallback none []) [] ≡ some (evaluate tracing fallback [])
execute_sequence-evaluate_example =
    execute_sequence-evaluate tracing fallback []
      ((cons_ne_nil _ [], cons_ne_nil _ []), cons_ne_nil _ [])

execute_sequence_returns_example :
    (r : ℤ × Trace) × (execute_sequence tracing (nodes_of fallback none []) [] ≡ some r)
execute_sequence_returns_example = execute_sequence_returns tracing (nodes_of fallback none []) []

execute_sequence_captures_skipped_example :
    (execute_sequence tracing
        (node (word (codes "false")) (op "&&")
          ∷ node (word (codes "orders")) (op "|>")
          ∷ node (word (codes "log.csv")) none
          ∷ [])
        []
      ≡ some (pos 0, codes "false" ∷ codes "log.csv" ∷ []))
    × (execute_sequence tracing
          (node (word (codes "false")) (op "&&")
            ∷ node (word (codes "orders")) (op "?>")
            ∷ node (word (codes "log.csv")) none
            ∷ [])
          []
        ≡ some (pos 0, codes "false" ∷ codes "log.csv" ∷ []))
unfolding run_command run_foreground my_strcmp expand_aliases join_args expand_once find_alias
    handle_market_wait_operator expand_args dispatch
execute_sequence_captures_skipped_example =
    execute_sequence_captures_skipped tracing [] [] [] (codes "false") (codes "orders")
      (codes "log.csv") [] refl

plains : (s t : Bytes) → holds is_plain s ≡ true → Operand t → Operand (s ++ t)
plains [] t h w = w
plains (c ∷ cs) t h w = plain c (cs ++ t) (ground (arith, h)) (plains cs t (ground (arith, h)) w)

-- `echo "a && b" && { date; pwd }`
abbrev quoted_command : Bytes
quoted_command = codes "echo \"a && b\" "

abbrev group_command : Bytes
group_command = codes " { date; pwd }"

abbrev two_commands : Chain
two_commands = link quoted_command and_then (last group_command)

two_commands-IsChain : IsChain two_commands
two_commands-IsChain = (
  (
    cons_ne_nil _ _,
    plains (codes "echo ") (codes "\"a && b\" ") refl (
        quoted b'"' (codes "a && b") (codes " ") refl
          (only (λ c. not (c == b'"')) (codes "a && b") refl) (plains (codes " ") [] refl nil)),
  ),
  (
    cons_ne_nil _ _,
    plains (codes " ") (codes "{ date; pwd }") refl (
        group (codes " date; pwd ") []
          (only (λ c. not (is_quote c || is_brace c)) (codes " date; pwd ") refl) nil),
  ),
)

split_on_operators-Chain_example :
    split_on_operators (codes "echo \"a && b\" && { date; pwd }")
    ≡ some (codes "echo \"a && b\"" ∷ codes "&&" ∷ codes " { date; pwd }" ∷ [])
unfolding trim_tail
split_on_operators-Chain_example = split_on_operators-Chain two_commands two_commands-IsChain

abbrev no_variables : Bytes → Option Bytes
no_variables name = none

parse_operators-Chain_example :
    (ns : List Node) × (parse_operators no_variables (codes "0") (chain_text two_commands)
      ≡ some ns)
    × NodesOf no_variables (codes "0") two_commands ns
parse_operators-Chain_example =
    parse_operators-Chain no_variables (codes "0") two_commands two_commands-IsChain

split_on_operators-unblank_example :
    (ps : List Bytes) × (split_on_operators (codes "a &&& b } ; 'c") ≡ some ps)
    × (unblank (concat ps) ≡ unblank (codes "a &&& b } ; 'c"))
split_on_operators-unblank_example = split_on_operators-unblank (codes "a &&& b } ; 'c")

abbrev job_events : List Event
job_events = started 41 (codes "sleep 9") ∷ cleaned (λ pid. true) ∷ started 42 (codes "feed") ∷ []

after-IsJobTable_example : IsJobTable (after job_events no_jobs)
after-IsJobTable_example =
    after-IsJobTable job_events no_jobs (record { ascending = tt; bounded = omega arith })

abbrev starts : ℕ → List Event
starts zero = []
starts (suc n) = started n (codes "job") ∷ starts n

-- 100 jobs, all of them ended.
abbrev full_table : JobTable
full_table = after (starts 100) no_jobs

parse_backtest_date-IsDay_example : IsDay (codes "2023-01-01") × IsDay (codes "2024-12-31")
unfolding parse_backtest_date
parse_backtest_date-IsDay_example =
    parse_backtest_date-IsDay (codes "2023:2024") (codes "2023-01-01") (codes "2024-12-31") refl
