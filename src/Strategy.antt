-- ===== src/Strategy.antt =====
-- The strategy engine of the backtests, src/strategy.
pub mod Numbers
pub mod Types
pub mod Trailing
pub mod Engine
