-- ===== src/Lock/Plain.antt =====
-- The lock server without a cache (lock_server.cc), between its holds of the mutex. A thread that
-- waits in `acquire` may go on whenever the lock is free, woken or not.
pub mod Granting
pub mod Waiting
use ds.Common.{
  ℕ, ◌+◌, ◌-◌, ◌≡◌, ◌≢◌, refl, Bool, true, false, List, [], Option, none, some, Bytes, Map, insert,
  lookup, or_else, ltb, nat_Eq, nat_eq, if◌then◌else◌, print_nat, arith, lookup-insert,
  lookup-insert_self, ap, ◌∙◌, sym,
}

-- `lock_server::lStatus`
pub data LStatus : Type 0 where
  free locked : LStatus

-- `lock_server::lockStatus`, without the condition variable
pub record LockStatus : Type 0 where
  pub status : LStatus
  pub client_id : Bytes
  pub waiting_count : ℕ

-- What `locks[lid]` makes of a missing lock.
abbrev pub no_lock : LockStatus
no_lock = record { status = free; client_id = []; waiting_count = 0 }

pub record LockServer : Type 0 where
  pub nacquire : ℕ
  pub locks : Map ℕ LockStatus

-- `lock_server::lock_server`
abbrev pub lock_server : LockServer
lock_server = record { nacquire = 0; locks = [] }

-- `lock_server::stat`
abbrev pub stat : LockServer → ℕ
stat s = s.nacquire

abbrev pub set_lock : LockServer → ℕ → LockStatus → LockServer
set_lock s lid l = record s { locks = insert lid l s.locks }

-- `lock_server::createLock`
abbrev pub create_lock : LockServer → ℕ → Bytes → LockServer
create_lock s lid client_id =
    set_lock s lid (record { status = locked; client_id = client_id; waiting_count = 0 })

-- `lock_server::changeLockState`
abbrev pub change_lock_state : LockServer → ℕ → LStatus → Bytes → LockServer
change_lock_state s lid new_status client_id =
    set_lock s lid
      (record (or_else no_lock (lookup lid s.locks)) { status = new_status; client_id = client_id })

-- `acquire` by the lock found and its status, up to the grant or the wait.
abbrev pub acquire_status : LockServer → ℕ → Bytes → LockStatus → LStatus → LockServer × Bool
acquire_status s lid client_id l free =
    (set_lock s lid (record l { status = locked; client_id = client_id }), true)
acquire_status s lid client_id l locked =
    (set_lock s lid (record l { waiting_count = l.waiting_count + 1 }), false)

unfoldable pub acquire_found : LockServer → ℕ → Bytes → Option LockStatus → LockServer × Bool
acquire_found s lid client_id none = (create_lock s lid client_id, true)
acquire_found s lid client_id (some l) = acquire_status s lid client_id l l.status

-- `lock_server::acquire`, with whether it grants the lock before it waits.
unfoldable pub acquire : LockServer → ℕ → ℕ → LockServer × Bool
unfolding acquire_found
acquire s lid clt = acquire_found s lid (print_nat clt) (lookup lid s.locks)

-- The loop of `acquire` by the status at the end of a wait: `--waitingCount`, and once more around or out.
abbrev pub wake_status : LockServer → ℕ → Bytes → LockStatus → LStatus → LockServer × Bool
wake_status s lid client_id l free = (
  set_lock s lid
      (record { status = locked; client_id = client_id; waiting_count = l.waiting_count - 1 }),
  true,
)
wake_status s lid client_id l locked =
    (set_lock s lid (record l { waiting_count = l.waiting_count - 1 + 1 }), false)

unfoldable pub wake : LockServer → ℕ → ℕ → LockServer × Bool
wake s lid clt =
    let l = or_else no_lock (lookup lid s.locks) in wake_status s lid (print_nat clt) l l.status

-- `lock_server::release`, with whether it wakes the threads that wait.
unfoldable pub release : LockServer → ℕ → LockServer × Bool
release s lid =
    let t = change_lock_state s lid free [] in
    (t, ltb 0 (or_else no_lock (lookup lid t.locks)).waiting_count)

abbrev pub is_locked : LStatus → Bool
is_locked free = false
is_locked locked = true

-- Whether a lock is held.
abbrev pub locked_at : LockServer → ℕ → Bool
locked_at s lid = is_locked (or_else no_lock (lookup lid s.locks)).status

-- A request of a thread: a call of `acquire`, or the end of a wait in it.
pub data Request : Type 0 where
  asks waits : ℕ → Request

unfoldable pub request : LockServer → ℕ → Request → LockServer × Bool
request s lid (asks clt) = acquire s lid clt
request s lid (waits clt) = wake s lid clt
