-- ===== src/Rpc.antt =====
-- The RPC library: rpc/rpc.cc, rpc/rpc.h and rpc/marshall.h.
pub mod Marshall
pub mod Window
pub mod Client
pub mod Time
