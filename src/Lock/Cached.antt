-- ===== src/Lock/Cached.antt =====
-- The caching lock server (lock_server_cache.cc). A handler runs as one step: its RPC to a client
-- comes after its changes of the table, and only that RPC is outside the mutex.
pub mod Exclusion
pub mod Told
pub mod Waiting
pub mod Order
use ds.Common.{
  ℕ, ◌≡◌, Bool, true, false, not, ◌&&◌, ◌||◌, List, [], ◌∷◌, ◌++◌, Option, none, some, Bytes, Map,
  insert, lookup, touch, value_or, bytes_Eq, nat_Eq, ◌==◌, nat_eq, if◌then◌else◌,
}

-- `lock_protocol::xxstatus`
pub data Status : Type 0 where
  ok retry rpcerr noent ioerr : Status

-- `lock_server_cache::lockState`
pub data LockState : Type 0 where
  free locked : LockState

-- `lock_server_cache::lockInfo`
pub record LockInfo : Type 0 where
  pub lid : ℕ
  pub state : LockState
  pub client_id : Bytes
  pub wait_list : List Bytes

-- What `lockList[lid]` makes of a missing lock.
abbrev pub no_lock : LockInfo
no_lock = record { lid = 0; state = LockState.free; client_id = []; wait_list = [] }

-- An RPC to a client: `rlock_protocol::revoke` or `rlock_protocol::retry`.
pub data Message : Type 0 where
  revoke retry : ℕ → Bytes → Message

-- The table, the counter that `stat` reads, and the RPCs tried, the latest first.
pub record Server : Type 0 where
  pub nacquire : ℕ
  pub lock_list : Map ℕ LockInfo
  pub tried : List Message

-- What happens to an RPC: whether the client can be bound, and what the call returns if it is.
pub record Answer : Type 0 where
  pub bound : Bool
  pub ret : ℕ

abbrev pub info : Server → ℕ → LockInfo
info s lid = value_or no_lock lid s.lock_list

abbrev pub set_info : Server → ℕ → LockInfo → Server
set_info s lid i = record s { lock_list = insert lid i s.lock_list }

abbrev pub is_locked : LockState → Bool
is_locked LockState.free = false
is_locked LockState.locked = true

abbrev pub created : LockInfo → ℕ → Bytes → LockInfo
created i lid id = record i { lid = lid; state = LockState.locked; client_id = id }

-- `lock_server_cache::createLock`
unfoldable pub create_lock : Server → ℕ → Bytes → Server
create_lock s lid id = set_info s lid (created (info s lid) lid id)

-- `lock_server_cache::updateLockState`
unfoldable pub update_lock_state : Server → ℕ → Bytes → LockState → Server
update_lock_state s lid id st = set_info s lid (record (info s lid) { client_id = id; state = st })

-- `lock_server_cache::revokeLock` and `lock_server_cache::retryCli`: whether they return OK.
unfoldable pub revoke_lock : Server → ℕ → Bytes → Answer → Server × Bool
revoke_lock s lid id a =
    (record s { tried = Message.revoke lid id ∷ s.tried }, a.bound && nat_eq a.ret 0)

unfoldable pub retry_cli : Server → ℕ → Bytes → Answer → Server × Bool
retry_cli s lid id a =
    (record s { tried = Message.retry lid id ∷ s.tried }, a.bound && nat_eq a.ret 0)

abbrev pub pushed : LockInfo → Bytes → LockInfo
pushed i id = record i { wait_list = i.wait_list ++ (id ∷ []) }

-- `lockList[lid].waitList.push_back(id)`
abbrev pub push_back : Server → ℕ → Bytes → Server
push_back s lid id = set_info s lid (pushed (info s lid) id)

-- `acquire` of a lock that is held, by its wait list.
unfoldable pub acquire_locked : Server → ℕ → Bytes → Answer → List Bytes → Server × Status
unfolding revoke_lock
acquire_locked s lid id a [] =
    let (t, sent) = revoke_lock (push_back s lid id) lid (info s lid).client_id a in
    (t, if sent then Status.retry else Status.rpcerr)
acquire_locked s lid id a (w ∷ ws) = (push_back s lid id, Status.retry)

-- The revoke that `acquire` sends a client whose lock others wait for.
unfoldable pub revoke_waited : Server → ℕ → Bytes → Answer → List Bytes → Server
unfolding revoke_lock
revoke_waited s lid id a [] = s
revoke_waited s lid id a (w ∷ ws) = (revoke_lock s lid id a).0

-- `acquire` of a lock that is free, by its wait list.
unfoldable pub acquire_free : Server → ℕ → Bytes → Answer → List Bytes → Server × Status
unfolding update_lock_state revoke_waited
acquire_free s lid id a [] = (update_lock_state s lid id LockState.locked, Status.ok)
acquire_free s lid id a (w ∷ ws) =
    if id == w
    then (
      let t = set_info s lid (record (info s lid) { wait_list = ws }) in
          revoke_waited (update_lock_state t lid id LockState.locked) lid id a ws,
      Status.ok,
    )
    else (push_back s lid id, Status.retry)

unfoldable pub acquire_known : Server → ℕ → Bytes → Answer → LockState → Server × Status
unfolding acquire_locked acquire_free
acquire_known s lid id a LockState.locked = acquire_locked s lid id a (info s lid).wait_list
acquire_known s lid id a LockState.free = acquire_free s lid id a (info s lid).wait_list

-- `acquire` by the entry that `lockList.find(lid)` gives.
unfoldable pub acquire_found : Server → ℕ → Bytes → Answer → Option LockInfo → Server × Status
unfolding create_lock acquire_known
acquire_found s lid id a none = (create_lock s lid id, Status.ok)
acquire_found s lid id a (some i) = acquire_known s lid id a i.state

-- `lock_server_cache::acquire`
unfoldable pub acquire : Server → ℕ → Bytes → Answer → Server × Status
unfolding acquire_found
acquire s lid id a = acquire_found s lid id a (lookup lid s.lock_list)

-- The retry that `release` sends the first client that waits.
unfoldable pub retry_waiting : Server → ℕ → Answer → List Bytes → Server
unfolding retry_cli
retry_waiting s lid a [] = s
retry_waiting s lid a (w ∷ ws) = (retry_cli s lid w a).0

-- `lock_server_cache::release`: the client that releases is not looked at.
unfoldable pub release : Server → ℕ → Bytes → Answer → Server × Status
unfolding update_lock_state retry_waiting
release s lid id a =
    let t = update_lock_state s lid [] LockState.free in
    (retry_waiting t lid a (info t lid).wait_list, Status.ok)

-- `lock_server_cache::stat`
unfoldable pub stat : Server → ℕ × Status
stat s = (s.nacquire, Status.ok)

-- The server before its first call; the constructor leaves `nacquire` unset.
unfoldable pub server : ℕ → Server
server nacquire = record { nacquire = nacquire; lock_list = []; tried = [] }
