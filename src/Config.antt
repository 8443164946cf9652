-- ===== src/Config.antt =====
-- The config layer: config.cc and config.h.
pub mod Epoch
pub mod Election
pub mod View
