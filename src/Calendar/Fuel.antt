-- ===== src/Calendar/Fuel.antt =====
-- The loops over the arrays of a registry end by themselves: their fuel is never used up.
use las_shell.Calendar.Exchange.{Exchange}
