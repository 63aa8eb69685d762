-- ===== src/Trading/Risk.antt =====
-- The loss guards, src/trading/risk.
pub mod Rolling
pub mod Daily
pub mod Wallet
pub mod Manager
pub mod Tests
