-- ===== src/Trading.antt =====
-- The trading side of the program, one module a file of src/trading.
pub mod StateMachine
pub mod Capital
pub mod Risk
pub mod Scheduler
