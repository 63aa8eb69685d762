-- ===== src/Language.antt =====
-- src/language: the parts of the Pine Script runtime that keep state.
pub mod RingBuffer
pub mod Series
pub mod Scope
pub mod Types
