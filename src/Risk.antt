-- ===== src/Risk.antt =====
-- src/risk_config.c: the limits of the risk configuration and the check of an order against them.
pub mod Text
pub mod Config
pub mod Order
pub mod State
