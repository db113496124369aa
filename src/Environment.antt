-- ===== src/Environment.antt =====
-- src/helper.c: the shell's environment and the expansion of variables in tokens and lines.
pub mod Getenv
pub mod Line
pub mod Pieces
pub mod Room
pub mod Safety
pub mod Expansion
