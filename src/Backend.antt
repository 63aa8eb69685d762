-- ===== src/Backend.antt =====
-- The server, backend/src.
pub mod Cancellation
