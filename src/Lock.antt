-- ===== src/Lock.antt =====
-- The caching lock server (lock_server_cache.cc), and what a lock server offers its clients.
pub mod Service
pub mod Cached
pub mod Client
pub mod Plain
