-- ===== src/Currency.antt =====
-- src/currency.c: the table of active currencies, its loading and the lookup. `Currency.Table` has the
-- definitions; the conversions to and from minor units are floating point and are not modelled.
pub mod Table
pub mod Lookup
