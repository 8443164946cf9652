-- ===== src/Lock/Cached/Exclusion.antt =====
-- Grants and releases of the caching lock server, as an implementation of the interface of
-- Lock/Service.antt (lock_server_cache.cc).
use ds.Common.{
  ℕ, ◌+◌, ◌∙◌, ◌&&◌, if◌then◌else◌, nat_eq, ◌≡◌, ◌≢◌, refl, Bool, true, false, List, [], ◌∷◌,
  Option, none, some, Bytes, lookup, nat_Eq, bytes_Eq, arith, value_or-insert,
}
use ds.Lock.Service.{one_if, LockService, LockCall, grants, freed, calls, grants_balance}
use ds.Lock.Cached.{
  Status, LockState, LockInfo, no_lock, Server, Answer, info, is_locked, create_lock,
  update_lock_state, revoke_lock, acquire_locked, revoke_waited, acquire_free, acquire_known,
  acquire_found, acquire, retry_waiting, release, retry_cli, server, set_info, push_back, pushed,
  created,
}

abbrev pub is_ok : Status → Bool
is_ok Status.ok = true
is_ok Status.retry = false
is_ok Status.rpcerr = false
is_ok Status.noent = false
is_ok Status.ioerr = false

-- Whether the table says that a lock is held.
abbrev pub held : Server → ℕ → Bool
held s k = is_locked (info s k).state

set_info-held :
    (s : Server) (lid k : ℕ) (i : LockInfo)
    → held (set_info s lid i) k ≡ (if nat_eq lid k then is_locked i.state else held s k)
set_info-held s lid k i = ground (arith, value_or-insert {K = ℕ} no_lock lid k i s.lock_list)

push_back-held : (s : Server) (lid k : ℕ) (id : Bytes) → held (push_back s lid id) k ≡ held s k
push_back-held s lid k id =
    ground (arith, nat_Eq.beq_iff lid k, set_info-held s lid k (pushed (info s lid) id))

update_lock_state-held :
    (s : Server) (lid k : ℕ) (id : Bytes) (st : LockState)
    → held (update_lock_state s lid id st) k ≡ (if nat_eq lid k then is_locked st else held s k)
unfolding update_lock_state
update_lock_state-held s lid k id st = set_info-held s lid k _

acquire_locked-held :
    (s : Server) (lid k : ℕ) (id : Bytes) (a : Answer) (ws : List Bytes)
    → (is_ok (acquire_locked s lid id a ws).1 ≡ false)
      × (held (acquire_locked s lid id a ws).0 k ≡ held s k)
unfolding acquire_locked revoke_lock
acquire_locked-held s lid k id a [] = (ground arith, push_back-held s lid k id)
acquire_locked-held s lid k id a (w ∷ ws) = (refl, push_back-held s lid k id)

revoke_waited-held :
    (s : Server) (lid k : ℕ) (id : Bytes) (a : Answer) (ws : List Bytes)
    → held (revoke_waited s lid id a ws) k ≡ held s k
unfolding revoke_waited revoke_lock
revoke_waited-held s lid k id a [] = refl
revoke_waited-held s lid k id a (w ∷ ws) = refl

retry_waiting-held :
    (s : Server) (lid k : ℕ) (a : Answer) (ws : List Bytes)
    → held (retry_waiting s lid a ws) k ≡ held s k
unfolding retry_waiting retry_cli
retry_waiting-held s lid k a [] = refl
retry_waiting-held s lid k a (w ∷ ws) = refl

-- What a request may do to the locks: a grant takes a free lock, and nothing else changes.
IsExclusive : Server → ℕ → Server × Status → Type 0
IsExclusive s lid r =
    (is_ok r.1 ≡ true → held s lid ≡ false)
    × ((k : ℕ) → held r.0 k ≡ (if nat_eq lid k && is_ok r.1 then true else held s k))

acquire_free-IsExclusive :
    (s : Server) (lid : ℕ) (id : Bytes) (a : Answer) (ws : List Bytes)
    → held s lid ≡ false
    → IsExclusive s lid (acquire_free s lid id a ws)
unfolding acquire_free IsExclusive
acquire_free-IsExclusive s lid id a [] h =
    (λ e. h, λ k. ground (arith, update_lock_state-held s lid k id LockState.locked))
acquire_free-IsExclusive s lid id a (w ∷ ws) h =
    let popped = record (info s lid) { wait_list = ws } in
    let t = set_info s lid popped in
    let u = update_lock_state t lid id LockState.locked in
    (
      λ e. h,
      λ k. ground (
        arith,
        nat_Eq.beq_iff lid k,
        push_back-held s lid k id,
        set_info-held s lid k popped,
        update_lock_state-held t lid k id LockState.locked,
        revoke_waited-held u lid k id a ws,
      ),
    )

acquire_known-IsExclusive :
    (s : Server) (lid : ℕ) (id : Bytes) (a : Answer) (st : LockState)
    → held s lid ≡ is_locked st
    → IsExclusive s lid (acquire_known s lid id a st)
unfolding acquire_known IsExclusive
acquire_known-IsExclusive s lid id a LockState.locked h =
    let ws = (info s lid).wait_list in
    (
      λ e. ground (arith, acquire_locked-held s lid lid id a ws),
      λ k. ground (arith, acquire_locked-held s lid k id a ws),
    )
acquire_known-IsExclusive s lid id a LockState.free h =
    acquire_free-IsExclusive s lid id a (info s lid).wait_list h

acquire_found-IsExclusive :
    (s : Server) (lid : ℕ) (id : Bytes) (a : Answer) (o : Option LockInfo)
    → lookup lid s.lock_list ≡ o
    → IsExclusive s lid (acquire_found s lid id a o)
unfolding acquire_found IsExclusive create_lock
acquire_found-IsExclusive s lid id a none h = (
  λ e. rw h refl,
  λ k. ground (arith, nat_Eq.beq_iff lid k, set_info-held s lid k (created (info s lid) lid id)),
)
acquire_found-IsExclusive s lid id a (some i) h =
    acquire_known-IsExclusive s lid id a i.state (rw h refl)

acquire-IsExclusive :
    (s : Server) (lid : ℕ) (id : Bytes) (a : Answer) → IsExclusive s lid (acquire s lid id a)
unfolding acquire
acquire-IsExclusive s lid id a = acquire_found-IsExclusive s lid id a _ refl

release-held :
    (s : Server) (lid k : ℕ) (id : Bytes) (a : Answer)
    → held (release s lid id a).0 k ≡ (if nat_eq lid k then false else held s k)
unfolding release
release-held s lid k id a =
    let t = update_lock_state s lid [] LockState.free in
    retry_waiting-held t lid k a (info t lid).wait_list
    ∙ update_lock_state-held s lid k [] LockState.free

pub cached-granted :
    (s : Server) (lid : ℕ) (r : Bytes × Answer)
    → is_ok (acquire s lid r.0 r.1).1 ≡ true
    → (held s lid ≡ false) × (held (acquire s lid r.0 r.1).0 lid ≡ true)
unfolding IsExclusive
cached-granted s lid r h =
    let e = acquire-IsExclusive s lid r.0 r.1 in
    (e.0 h, ground (arith, nat_Eq.beq_iff lid lid, e.1 lid))

pub cached-refused :
    (s : Server) (lid : ℕ) (r : Bytes × Answer)
    → is_ok (acquire s lid r.0 r.1).1 ≡ false
    → held (acquire s lid r.0 r.1).0 lid ≡ held s lid
unfolding IsExclusive
cached-refused s lid r h =
    let e = acquire-IsExclusive s lid r.0 r.1 in ground (arith, nat_Eq.beq_iff lid lid, e.1 lid)

pub cached-other :
    (s : Server) (lid k : ℕ) (r : Bytes × Answer)
    → lid ≢ k
    → held (acquire s lid r.0 r.1).0 k ≡ held s k
unfolding IsExclusive
cached-other s lid k r h =
    let e = acquire-IsExclusive s lid r.0 r.1 in ground (arith, nat_Eq.beq_iff lid k, e.1 k)

pub cached-released :
    (s : Server) (lid : ℕ) (r : Bytes × Answer) → held (release s lid r.0 r.1).0 lid ≡ false
cached-released s lid r = ground (arith, nat_Eq.beq_iff lid lid, release-held s lid lid r.0 r.1)

pub cached-kept :
    (s : Server) (lid k : ℕ) (r : Bytes × Answer)
    → lid ≢ k
    → held (release s lid r.0 r.1).0 k ≡ held s k
cached-kept s lid k r h = ground (arith, nat_Eq.beq_iff lid k, release-held s lid k r.0 r.1)

-- A request of a client: its address and what becomes of the RPC that the request leads to.
abbrev pub Request : Type 0
Request = Bytes × Answer

-- The caching lock server offers what the clients of a lock server rely on.
unfoldable pub cached : LockService Server Request
cached = record {
  acquire = λ s lid r. ((acquire s lid r.0 r.1).0, is_ok (acquire s lid r.0 r.1).1);
  release = λ s lid r. (release s lid r.0 r.1).0;
  locked = held;
  acquire-granted = cached-granted;
  acquire-refused = cached-refused;
  acquire-other = cached-other;
  release-self = cached-released;
  release-other = cached-kept;
}

-- From the start of the server on, whatever requests arrive in whatever order, a lock has been
-- granted as often as it was freed, and once more exactly if it is held.
pub cached-grants :
    (n k : ℕ) (cs : List (LockCall Request))
    → grants cached k (server n) cs
      ≡ freed cached k (server n) cs + one_if (held (calls cached (server n) cs) k)
unfolding cached server lookup
cached-grants n k cs = ground (arith, grants_balance cached k cs (server n))
