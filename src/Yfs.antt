-- ===== src/Yfs.antt =====
-- The file system client (yfs_client.cc, split.h) and its FUSE front end (fuse.cc).
pub mod Split
pub mod Directory
pub mod Client
pub mod Bytes
pub mod Locks
pub mod Files
pub mod Names
pub mod Fuse
pub mod Balance
pub mod Requests
