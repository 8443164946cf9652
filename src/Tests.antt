-- ===== src/Tests.antt =====
-- Runs of the models at concrete inputs.
mod Nodes
mod Messages
mod Views
mod Servers
mod Files
mod Clients
mod Locks
