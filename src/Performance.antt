-- ===== src/Performance.antt =====
-- src/performance: the caches and the object pools.
pub mod Cache
pub mod Pool
