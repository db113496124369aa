-- ===== src/Lib.antt =====
-- LAS Shell, a shell for trading desks written in C. The library models the parts that its lines
-- and its market data go through.
--
-- The parts, their code, and the files that model them:
-- * CString (src/helper.c): the shell's own text functions. A text is the list of its bytes
--   without the NUL; a buffer is the list of its cells, and a write or read outside is `none`.
-- * TimeFormat (src/helper.c): `my_strftime`, which writes the time stamps of redirections.
-- * Environment (src/helper.c): Getenv for `my_getenv`, `expand_arg` and `expand_args`, Line for
--   `ensure_cap` and `expand_vars_in_line` with the capacity of the buffer and the answers of
--   `realloc`; Pieces has the expansion without a buffer.
-- * InputParser (src/input_parser.c): the tokeniser `parse_input` as a machine with the modes of
--   the source's two flags, one function per branch of its loop. The C library's `getenv` and the
--   last exit status are parameters.
-- * Alias (src/alias.c): Table holds the array and its operations, File the reading and writing
--   of the alias file, Expand the expansion of a line's first word, Command the commands `alias`
--   and `unalias`; the other files there hold the proofs. The main loop calls `expand_aliases`,
--   then `expand_vars_in_line`, then `parse_input`; the escaping of quotes is shared with
--   InputParser/Quote.
-- * Registry (src/calendar.c, src/currency.c): the reader of JSON objects, the sort and the
--   binary search, which both files have in equal copies. `qsort` of the C library is an
--   insertion sort here.
-- * Calendar (src/calendar.c): Date, Exchange, Load and Init for dates and the registry, Query
--   for the status, the time until a change, holidays and the next open or close; Trading says what
--   a trading day is without them. The local time of an exchange is an argument, since the C library
--   computes it.
-- * Currency (src/currency.c, include/currency.h): the table of currencies and its lookup.
-- * Operators (src/operators.c, include/my_own_shell.h): Split for the splitting of a line at its
--   operators, Nodes for `parse_operators`, Jobs for the table of background jobs, Backtest for the
--   dates of `~>`, Wait for `@next_open` and `@before_close`, Sequence for `execute_sequence`. Shell
--   is the interface of what a sequence calls: builtins, processes, pipes, the risk gate and the log.
--   Sequence calls the functions of Alias, Environment, CString and Jobs, Nodes calls `parse_input`.
-- * Risk (src/risk_config.c, include/risk_config.h): Text and Config for the reading of the file,
--   Order for the check of an order, State for the loaded configuration and its queries. The
--   currencies are checked with `currency_is_valid` of Currency. Config.Numbers is the interface of
--   the C language's `double` with `atof`, `atoi` and `fabs`.
-- * Audit (src/audit.c): Record for the texts of a record, Log for `audit_log_command` behind the
--   run of the command, Init for the seed in `audit_init`, Verify for `audit_verify_log`.
--   `compute_sha256` is a parameter. Verify/Texts has the texts that are hashed for a log, told from
--   the log alone; a log has no NUL byte.
-- Prelude has the shared names, lists and integers; Examples has runs at concrete inputs.
--
-- Bounds and fuel. `run` of the tokeniser takes one unit per round, each round consumes a byte,
-- and the fuel is one more than the length of the line, so it is not used up. The expansion of a
-- line has the same fuel for the same reason, and the doubling of its buffer one unit more than
-- the length asked for, since it adds at least one cell. The loops over arrays of objects and
-- over the lines of the alias file get one more unit than the text has bytes, and each round
-- consumes some; so have the splitting of a line and the lines of the risk file. A sequence has one
-- unit more than it has nodes, and the loops over the lines of the audit log one more than the log
-- has bytes. The alias expansion has ten rounds and the searches of the calendar have 30 and 401
-- days, as in the source. The sizes of arrays and of fields are the source's. Numbers do not
-- overflow in the sizes that occur, so they are unbounded here, and years start at 1.
--
-- Not modelled: processes, files, sockets and the terminal; allocation failure, but for
-- `my_strdup` and `ensure_cap`; amounts of money in doubles; the other builtin commands, the
-- broker, crash recovery, scripts and redirections; the genesis file, SHA-256 itself and the
-- capture of outputs in the audit log. Of commands that print (the table of limits, messages on
-- the standard error) the printing is left out.
pub mod Prelude
pub mod CString
pub mod TimeFormat
pub mod InputParser
pub mod Alias
pub mod Registry
pub mod Calendar
pub mod Currency
pub mod Environment
pub mod Operators
pub mod Risk
pub mod Audit
mod Examples
