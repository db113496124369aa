-- ===== src/Registry.antt =====
-- The parts that src/calendar.c and src/currency.c have in common: the extraction of fields from a
-- JSON registry, the sorting of a table by a text key and the binary search in it.
pub mod Json
pub mod Walk
pub mod Field
pub mod Sort
pub mod Search
