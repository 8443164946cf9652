-- ===== src/Lock/Plain/Granting.antt =====
-- The lock server without a cache as a lock service (lock_server.cc).
use ds.Common.{
  ℕ, ◌+◌, ◌-◌, ◌≡◌, ◌≢◌, refl, Bool, true, false, [], Option, none, some, Bytes, lookup, or_else,
  nat_Eq, print_nat, arith, lookup-insert, ap, ◌∙◌, sym,
}
use ds.Lock.Service.{LockService}
use ds.Lock.Plain.{
  LStatus, free, locked, LockStatus, no_lock, LockServer, set_lock, acquire_status, acquire_found,
  acquire, wake_status, wake, release, is_locked, locked_at, Request, asks, waits, request,
}

set_lock_self :
    (s : LockServer) (lid : ℕ) (l : LockStatus)
    → locked_at (set_lock s lid l) lid ≡ is_locked l.status
set_lock_self s lid l = ground (arith, lookup-insert {K = ℕ} lid lid l s.locks)

set_lock_other :
    (s : LockServer) (lid k : ℕ) (l : LockStatus)
    → lid ≢ k
    → locked_at (set_lock s lid l) k ≡ locked_at s k
set_lock_other s lid k l h = ground (arith, lookup-insert {K = ℕ} lid k l s.locks)

-- What a request for a lock does to the locks.
pub record Answers (s : LockServer) (lid : ℕ) (r : LockServer × Bool) : Type 0 where
  pub granted : r.1 ≡ true → (locked_at s lid ≡ false) × (locked_at r.0 lid ≡ true)
  pub refused : r.1 ≡ false → locked_at r.0 lid ≡ locked_at s lid
  pub other : (k : ℕ) → lid ≢ k → locked_at r.0 k ≡ locked_at s k

grants :
    (s : LockServer) (lid : ℕ) (l : LockStatus)
    → l.status ≡ locked
    → locked_at s lid ≡ false
    → Answers s lid (set_lock s lid l, true)
grants s lid l e f = record {
  granted = λ h. (f, set_lock_self s lid l ∙ ap is_locked e);
  refused = λ h. absurd (cc);
  other = λ k n. set_lock_other s lid k l n;
}

refuses :
    (s : LockServer) (lid : ℕ) (l : LockStatus)
    → l.status ≡ locked
    → locked_at s lid ≡ true
    → Answers s lid (set_lock s lid l, false)
refuses s lid l e f = record {
  granted = λ h. absurd (cc);
  refused = λ h. set_lock_self s lid l ∙ ap is_locked e ∙ sym f;
  other = λ k n. set_lock_other s lid k l n;
}

at_lock :
    (s : LockServer) (lid : ℕ) (o : Option LockStatus)
    → lookup lid s.locks ≡ o
    → locked_at s lid ≡ is_locked (or_else no_lock o).status
at_lock s lid o e = ap (λ p. is_locked (or_else no_lock p).status) e

acquire_status-Answers :
    (s : LockServer) (lid : ℕ) (id : Bytes) (l : LockStatus) (t : LStatus)
    → l.status ≡ t
    → locked_at s lid ≡ is_locked t
    → Answers s lid (acquire_status s lid id l t)
acquire_status-Answers s lid id l free e f =
    grants s lid (record l { status = locked; client_id = id }) refl f
acquire_status-Answers s lid id l locked e f =
    refuses s lid (record l { waiting_count = l.waiting_count + 1 }) e f

acquire_found-Answers :
    (s : LockServer) (lid : ℕ) (id : Bytes) (o : Option LockStatus)
    → lookup lid s.locks ≡ o
    → Answers s lid (acquire_found s lid id o)
unfolding acquire_found
acquire_found-Answers s lid id none e =
    grants s lid (record { status = locked; client_id = id; waiting_count = 0 }) refl
      (at_lock s lid none e)
acquire_found-Answers s lid id (some l) e =
    acquire_status-Answers s lid id l l.status refl (at_lock s lid (some l) e)

wake_status-Answers :
    (s : LockServer) (lid : ℕ) (id : Bytes) (l : LockStatus) (t : LStatus)
    → l.status ≡ t
    → locked_at s lid ≡ is_locked t
    → Answers s lid (wake_status s lid id l t)
wake_status-Answers s lid id l free e f =
    grants s lid (record { status = locked; client_id = id; waiting_count = l.waiting_count - 1 })
      refl f
wake_status-Answers s lid id l locked e f =
    refuses s lid (record l { waiting_count = l.waiting_count - 1 + 1 }) e f

pub request-Answers : (s : LockServer) (lid : ℕ) (r : Request) → Answers s lid (request s lid r)
unfolding request acquire wake
request-Answers s lid (asks clt) =
    acquire_found-Answers s lid (print_nat clt) (lookup lid s.locks) refl
request-Answers s lid (waits clt) =
    let l = or_else no_lock (lookup lid s.locks) in
    wake_status-Answers s lid (print_nat clt) l l.status refl refl

pub release_self : (s : LockServer) (lid : ℕ) → locked_at (release s lid).0 lid ≡ false
unfolding release
release_self s lid =
    set_lock_self s lid
      (record (or_else no_lock (lookup lid s.locks)) { status = free; client_id = [] })

pub release-other :
    (s : LockServer) (lid k : ℕ) → lid ≢ k → locked_at (release s lid).0 k ≡ locked_at s k
unfolding release
release-other s lid k n =
    set_lock_other s lid k
      (record (or_else no_lock (lookup lid s.locks)) { status = free; client_id = [] }) n

-- The server without a cache as a lock service.
unfoldable pub plain : LockService LockServer Request
plain = record {
  acquire = request;
  release = λ s lid r. (release s lid).0;
  locked = locked_at;
  acquire-granted = λ s lid r h. (request-Answers s lid r).granted h;
  acquire-refused = λ s lid r h. (request-Answers s lid r).refused h;
  acquire-other = λ s lid k r n. (request-Answers s lid r).other k n;
  release-self = λ s lid r. release_self s lid;
  release-other = λ s lid k r n. release-other s lid k n;
}
