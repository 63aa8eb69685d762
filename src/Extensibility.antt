-- ===== src/Extensibility.antt =====
-- The plugins of the program, src/extensibility.
pub mod Registry
pub mod Manager
