-- ===== src/Lock/Client.antt =====
-- The caching lock client (lock_client_cache.cc), for one lock: its entry in `lockList` and the threads
-- that call the client, each between two holds of the mutex. A thread that waits on a condition variable
-- may go on whenever the loop around the wait ends, woken or not.
pub mod Threads
pub mod Having
pub mod System
use ds.Common.{
  ℕ, ◌≡◌, Bool, true, false, ◌&&◌, List, [], ◌∷◌, Option, none, some, Map, insert, erase, nat_eq,
  nat_Eq, if◌then◌else◌, or_else,
}

-- `lock_client_cache::lockState`
pub data LockState : Type 0 where
  none_state free locked acquiring releasing : LockState

-- `lock_client_cache::lockInfo`, without the condition variables
pub record LockInfo : Type 0 where
  pub thread_id : ℕ
  pub waiting_to_retry : Bool
  pub waiting_to_acq : Bool
  pub to_retry : Bool
  pub to_revoke : Bool
  pub state : LockState
  pub wait_list : Map ℕ Bool

-- What `lockList[lid]` makes of a missing entry.
abbrev pub no_info : LockInfo
no_info = record {
  thread_id = 0;
  waiting_to_retry = false;
  waiting_to_acq = false;
  to_retry = false;
  to_revoke = false;
  state = none_state;
  wait_list = [];
}

-- Where a thread is: out of the client without the lock; in one of the waits of `acquire`, by what it
-- waits for; in a call of the server; between a call and the next hold of the mutex; out of the client,
-- with the lock; or in `lu->dorelease` and the call that gives the lock back.
pub data Pc : Type 0 where
  outside wait_free wait_none calling retrying wait_retry recalling granted holding giving_back : Pc

pub record LockClient : Type 0 where
  pub entry : Option LockInfo
  pub threads : ℕ → Pc

-- What the server answers to `acquire` and `release`; anything else is a failure.
pub data Response : Type 0 where
  ok retry failed : Response

abbrev pub info : LockClient → LockInfo
info c = or_else no_info c.entry

abbrev pub at : (ℕ → Pc) → ℕ → Pc → ℕ → Pc
at threads t p u = if nat_eq t u then p else threads u

abbrev pub goes : LockClient → ℕ → Pc → LockInfo → LockClient
goes c t p i = record { entry = some i; threads = at c.threads t p }

-- `lock_client_cache::createLock`: the state is set, and what the entry holds beside it is cleared.
abbrev pub create_lock : ℕ → LockInfo
create_lock t = record {
  thread_id = t;
  waiting_to_retry = false;
  waiting_to_acq = false;
  to_retry = false;
  to_revoke = false;
  state = acquiring;
  wait_list = [];
}

-- `lock_client_cache::updateLockState`
abbrev pub update_lock_state : LockInfo → ℕ → LockState → LockInfo
update_lock_state i t s = record i { thread_id = t; state = s }

abbrev pub queued : LockInfo → ℕ → LockInfo
queued i t = record i { wait_list = insert t true i.wait_list }

-- The cases of `acquire` for an entry that is there.
unfoldable pub acquire_found : LockClient → ℕ → LockInfo → LockState → LockClient
acquire_found c t i none_state =
    if i.waiting_to_acq
    then goes c t wait_free (queued i t)
    else goes c t calling (update_lock_state i t acquiring)
acquire_found c t i free = goes c t holding (update_lock_state i t locked)
acquire_found c t i acquiring = goes c t wait_free (queued i t)
acquire_found c t i locked = goes c t wait_free (queued i t)
acquire_found c t i releasing =
    if i.waiting_to_acq
    then goes c t wait_free (queued i t)
    else goes c t wait_none (record i { waiting_to_acq = true })

-- `lock_client_cache::acquire` up to its first wait or call.
unfoldable pub acquire_entry : LockClient → ℕ → Option LockInfo → LockClient
unfolding acquire_found
acquire_entry c t none = goes c t calling (create_lock t)
acquire_entry c t (some i) = acquire_found c t i i.state

unfoldable pub acquire : LockClient → ℕ → LockClient
unfolding acquire_entry
acquire c t = acquire_entry c t c.entry

-- The end of the loop `while (lockList[lid].state != FREE)`.
unfoldable pub take_free : LockClient → ℕ → LockClient
take_free c t =
    let i = update_lock_state (info c) t locked in
    goes c t holding (record i { wait_list = erase t i.wait_list })

-- The end of the loop `while (lockList[lid].state != NONE)`.
unfoldable pub take_none : LockClient → ℕ → LockClient
take_none c t =
    goes c t calling (update_lock_state (record (info c) { waiting_to_acq = false }) t acquiring)

-- The first call of `acquireAndMaybeRetry` returns. After a failure `acquire` returns like any other.
unfoldable pub called : LockClient → ℕ → Response → LockClient
called c t ok = record c { threads = at c.threads t granted }
called c t retry = record c { threads = at c.threads t retrying }
called c t failed = record c { threads = at c.threads t holding }

-- `acquireAndMaybeRetry` after a `RETRY`.
unfoldable pub check_retry : LockClient → ℕ → LockClient
check_retry c t =
    if (info c).to_retry
    then goes c t recalling (record (info c) { to_retry = false })
    else goes c t wait_retry (record (info c) { waiting_to_retry = true })

-- The end of the loop `while (!lockList[lid].toRetry)`.
unfoldable pub take_retry : LockClient → ℕ → LockClient
take_retry c t = goes c t recalling (record (info c) { to_retry = false; waiting_to_retry = false })

-- The second call returns. Without the lock `acquire` returns like any other.
unfoldable pub recalled : LockClient → ℕ → Response → LockClient
recalled c t ok = record c { threads = at c.threads t granted }
recalled c t retry = record c { threads = at c.threads t holding }
recalled c t failed = record c { threads = at c.threads t holding }

-- `updateLockState(lid, pthread_self(), LOCKED)` after a call that got the lock.
unfoldable pub settle : LockClient → ℕ → LockClient
settle c t = goes c t holding (update_lock_state (info c) t locked)

abbrev pub is_nil : Map ℕ Bool → Bool
is_nil [] = true
is_nil (w ∷ ws) = false

-- `lock_client_cache::release` up to its call.
unfoldable pub release : LockClient → ℕ → LockClient
release c t =
    let i = update_lock_state (info c) t free in
    if is_nil i.wait_list
    then (if i.to_revoke
        then goes c t giving_back (record (update_lock_state i t releasing) { to_revoke = false })
        else goes c t outside i)
    else goes c t outside i

abbrev pub is_free : LockState → Bool
is_free free = true
is_free _ = false

-- `lock_client_cache::revoke_handler` up to its call, on a thread of its own.
unfoldable pub revoke_handler : LockClient → ℕ → LockClient
revoke_handler c t =
    let i = record (info c) { to_revoke = true } in
    if is_free i.state && is_nil i.wait_list
    then goes c t giving_back (record (update_lock_state i t releasing) { to_revoke = false })
    else goes c t outside i

-- The call of `release` or of `revoke_handler` returns.
unfoldable pub given_back : LockClient → ℕ → Response → LockClient
given_back c t ok = goes c t outside (update_lock_state (info c) t none_state)
given_back c t retry = record c { threads = at c.threads t outside }
given_back c t failed = record c { threads = at c.threads t outside }

-- `lock_client_cache::retry_handler`
unfoldable pub retry_handler : LockClient → LockClient
retry_handler c = record c { entry = some (record (info c) { to_retry = true }) }

-- `lock_client_cache::lock_client_cache`
abbrev pub lock_client_cache : LockClient
lock_client_cache = record { entry = none; threads = λ t. outside }
