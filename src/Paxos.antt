-- ===== src/Paxos.antt =====
-- The Paxos layer: paxos.cc, paxos.h, paxos_protocol.h and log.cc.
pub mod Proposal
pub mod Quorum
pub mod State
pub mod Log
pub mod Acceptor
pub mod Messages
pub mod Proposer
