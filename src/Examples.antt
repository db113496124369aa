-- ===== src/Examples.antt =====
-- Runs of the definitions and the theorems at concrete inputs.
mod Data
mod Text
mod Lines
mod Market
mod Days
mod Orders
mod Risk
mod Audit
