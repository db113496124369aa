-- ===== src/Operators.antt =====
-- src/operators.c: a line with `&&`, `||`, `;`, `&` and the shell's own operators: its splitting, its
-- list of nodes, and their execution.
pub mod Split
pub mod Nodes
pub mod Jobs
pub mod Backtest
pub mod Shell
pub mod Wait
pub mod Sequence
