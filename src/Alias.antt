-- ===== src/Alias.antt =====
-- src/alias.c: the alias table, the alias file and the expansion of a command line. `aliases` with
-- `alias_count` is a list in the order of the array.
pub mod Table
pub mod File
pub mod Expand
pub mod Invariant
pub mod Laws
pub mod RoundTrip
pub mod Exact
pub mod Steps
pub mod Replaced
pub mod Command
