-- ===== src/Lib.antt =====
-- A verification library for the distributed file system of this repository: a lock server, an
-- extent server, an RPC library, and replication by Paxos.
--
-- The parts and the files that model them (paths from the repository's root):
-- - Common: Boolean tests, lists and byte strings over the native numbers, maps, text streams.
-- - Paxos/Proposal, Paxos/Quorum: `prop_t` of paxos_protocol.h, and members and majorities.
-- - Paxos/State, Paxos/Log, Paxos/Acceptor: `class acceptor` of paxos.cc and its log file of log.cc.
--   The file is its text; each handler (`preparereq`, `acceptreq`, `decidereq`, `commit`) is one
--   step, which changes the state and appends to the file; a failed `VERIFY` is an abort.
-- - Paxos/Proposer: `class proposer` of paxos.cc over a network of acceptors, where the fate of each
--   RPC is given by a list: answered, lost, or handled without an answer.
-- - Paxos/Messages: the operators of the messages of paxos_protocol.h, over Rpc/Marshall.
-- - Config/View: the views of config.cc, which Paxos agrees on as texts; it uses the proposer.
--   Config/View/Adding follows `add` from its run to the commit.
-- - Config/Epoch, Config/Election: the leader election of config.cc, one function per handler.
-- - Rpc/Marshall: `marshall` and `unmarshall` of rpc/marshall.h and rpc/rpc.cc, with a record of the
--   two operators of a type and their laws, which vectors, pairs and maps build on; Rpc/Marshall/Wire
--   has all types that are built from them.
-- - Rpc/Window: the reply window of `class rpcs` of rpc/rpc.cc.
-- - Rpc/Client, Rpc/Time: the calls of `class rpcc` of rpc/rpc.cc with the window of `update_xid_rep`,
--   one function per hold of its mutex, and the times at the end of that file.
-- - Lock/Service: what a lock server offers, as a record of operations and laws. Lock/Cached is the
--   server of lock_server_cache.cc and Lock/Plain that of lock_server.cc; both fill the record.
--   Lock/Plain/Waiting has the threads that wait in the latter.
-- - Lock/Client: lock_client_cache.cc for one lock, as steps of threads between holds of the mutex;
--   Lock/Client/System puts any number of clients over any lock server of that interface.
-- - Extent, Extent/Client: the extent server of extent_server.cc, and the write-back cache of
--   extent_client.cc in front of it.
-- - Yfs/Split, Yfs/Directory, Yfs/Client: split.h, the text of a directory, and the operations of
--   yfs_client.cc over the extent client, which list their calls of the lock client. Yfs/Fuse is
--   fuse.cc over them: each handler gives the replies that it sends.
-- - Rsm: rsm.cc, over what it asks of config.cc.
-- - Tests: runs at concrete inputs.
--
-- Numbers are natural numbers; an unsigned int wraps at 2 ^ 32 where the code adds to it, and an int
-- that is marshalled stands for its bits. Buffers are shorter than 2 ^ 31 bytes, as their sizes are
-- ints. The reader of the log and the reader of a view have one unit of fuel for each byte and one
-- more, and each round reads a byte at least. The signs that text streams accept are not modelled,
-- since nothing prints one. The capacity of a buffer that is written is an int and wraps around;
-- allocation does not fail. A map is an association list in the order in
-- which its keys were entered, where a std::map is ordered by its keys: loops over a map may run in
-- another order.
--
-- The loop of `Split` has one unit of fuel for each byte and one more, and that of `add_timespec` one for
-- each nanosecond. A thread that waits on a condition variable may go on whenever the loop around
-- the wait ends, whoever woke it. In Lock/Client/System a call of the server and its answer are one
-- step, with every answer that the call may have: the server refuses, or the request or the answer is
-- lost.
--
-- Not modelled: sockets, polling and threads (rpc/connection.cc, rpc/pollmgr.cc, rpc/thr_pool.cc),
-- node handles (handle.cc), the dispatch of the RPC server, the retransmissions of the RPC client,
-- the client of the replicated state machine, and the main programs. The state transfer of rsm.cc is
-- empty in the source. Handlers that hold a mutex throughout are one step; where a handler gives it
-- up for an RPC, the RPC comes last.
pub mod Common
pub mod Paxos
pub mod Rpc
pub mod Config
pub mod Lock
pub mod Extent
pub mod Rsm
pub mod Yfs
mod Tests
