-- ===== src/Calendar.antt =====
-- src/calendar.c: exchanges with their sessions and holidays, and the questions asked of them.
pub mod Date
pub mod Exchange
pub mod Load
pub mod Init
pub mod Query
pub mod Holidays
pub mod Loaded
pub mod Start
pub mod Order
pub mod Weekday
pub mod Status
pub mod Trading
pub mod Change
pub mod Boundary
pub mod Fuel
