-- ===== src/Lock/Cached/Told.antt =====
-- Whether the messages for a lock are tried: what one call of the caching lock server keeps of it
-- (lock_server_cache.cc).
use ds.Common.{
  ℕ, ◌≡◌, ◌≢◌, inl, inr, refl, sym, ap, Bool, true, false, ◌&&◌, ◌||◌, List, [], ◌∷◌, ◌++◌, Option,
  none, some, Bytes, insert, lookup, value_or, nat_Eq, bytes_Eq, ◌==◌, nat_eq, arith,
  value_or-insert, Bool-cases, subst,
}
use ds.Lock.Cached.{
  Status, LockState, LockInfo, no_lock, Message, Server, Answer, info, set_info, created,
  create_lock, update_lock_state, revoke_lock, pushed, acquire_locked, revoke_waited, acquire_free,
  acquire_known, acquire_found, acquire, retry_waiting, release, retry_cli,
}

-- Whether a revoke of a lock is among the messages to a client, and whether a retry is.
unfoldable pub revoked : ℕ → Bytes → List Message → Bool
revoked k id [] = false
revoked k id (Message.revoke lid c ∷ ms) = (nat_eq lid k && (c == id)) || revoked k id ms
revoked k id (Message.retry lid c ∷ ms) = revoked k id ms

unfoldable pub retried : ℕ → Bytes → List Message → Bool
retried k id [] = false
retried k id (Message.revoke lid c ∷ ms) = retried k id ms
retried k id (Message.retry lid c ∷ ms) = (nat_eq lid k && (c == id)) || retried k id ms

-- Where clients wait for a lock, its holder has been told to give it back, or if it is free the
-- first of them has been told to ask again.
unfoldable pub told : ℕ → LockState → Bytes → List Bytes → List Message → Bool
unfolding revoked retried
told k st holder [] ms = true
told k LockState.locked holder (w ∷ ws) ms = revoked k holder ms
told k LockState.free holder (w ∷ ws) ms = retried k w ms

abbrev pub info_told : ℕ → LockInfo → List Message → Bool
info_told k i ms = told k i.state i.client_id i.wait_list ms

told_later :
    (k : ℕ) (st : LockState) (c : Bytes) (ws : List Bytes) (m : Message) (ms : List Message)
    → told k st c ws ms ≡ true
    → told k st c ws (m ∷ ms) ≡ true
unfolding told revoked retried
told_later k st c [] m ms h = refl
told_later k LockState.locked c (w ∷ ws) (Message.revoke lid d) ms h = ground arith
told_later k LockState.locked c (w ∷ ws) (Message.retry lid d) ms h = h
told_later k LockState.free c (w ∷ ws) (Message.revoke lid d) ms h = h
told_later k LockState.free c (w ∷ ws) (Message.retry lid d) ms h = ground arith

revoke_told :
    (k : ℕ) (c : Bytes) (ws : List Bytes) (ms : List Message)
    → told k LockState.locked c ws (Message.revoke k c ∷ ms) ≡ true
unfolding told revoked
revoke_told k c [] ms = refl
revoke_told k c (w ∷ ws) ms = ground (arith, nat_Eq.beq_iff k k, bytes_Eq.beq_iff c c)

retry_told :
    (k : ℕ) (c w : Bytes) (ws : List Bytes) (ms : List Message)
    → told k LockState.free c (w ∷ ws) (Message.retry k w ∷ ms) ≡ true
unfolding told retried
retry_told k c w ws ms = ground (arith, nat_Eq.beq_iff k k, bytes_Eq.beq_iff w w)

-- A longer wait list asks for no other RPC.
told_pushed :
    (k : ℕ) (st : LockState) (c id w : Bytes) (ws : List Bytes) (ms : List Message)
    → told k st c (w ∷ ws) ms ≡ true
    → told k st c ((w ∷ ws) ++ (id ∷ [])) ms ≡ true
unfolding told
told_pushed k LockState.locked c id w ws ms h = h
told_pushed k LockState.free c id w ws ms h = h

pub info-set_info : (s : Server) (lid : ℕ) (i : LockInfo) → info (set_info s lid i) lid ≡ i
info-set_info s lid i =
    ground (arith, nat_Eq.beq_iff lid lid, value_or-insert {K = ℕ} no_lock lid lid i s.lock_list)

info-set_info_ne :
    (s : Server) (lid k : ℕ) (i : LockInfo) → lid ≢ k → info (set_info s lid i) k ≡ info s k
info-set_info_ne s lid k i n =
    ground (arith, nat_Eq.beq_iff lid k, value_or-insert {K = ℕ} no_lock lid k i s.lock_list)

abbrev pub is_granted : Status → Bool
is_granted Status.ok = true
is_granted _ = false

-- The lock `k` at a server.
abbrev pub Told : ℕ → Server → Type 0
Told k s = info_told k (info s k) s.tried ≡ true

module _ (k : ℕ) where
  -- A table with a new entry.
  set_info-told :
      (s : Server) (lid : ℕ) (i : LockInfo) (ms : List Message)
      → (lid ≢ k → info_told k (info s k) ms ≡ true)
      → (lid ≡ k → info_told lid i ms ≡ true)
      → info_told k (value_or no_lock k (insert lid i s.lock_list)) ms ≡ true
  set_info-told s lid i ms old new = elim (Bool-cases (nat_eq lid k)) [
    | inl e ↦
        let f = (nat_Eq.beq_iff lid k).0 e in
        rw (value_or-insert {K = ℕ} no_lock lid k i s.lock_list, e)
          (subst (λ j. info_told j i ms ≡ true) f (new f))
    | inr e ↦
        rw (value_or-insert {K = ℕ} no_lock lid k i s.lock_list, e)
          (old (ground (arith, nat_Eq.beq_iff lid k)))
  ]

  later : (s : Server) (m : Message) → Told k s → info_told k (info s k) (m ∷ s.tried) ≡ true
  later s m h = told_later k (info s k).state (info s k).client_id (info s k).wait_list m s.tried h

  -- One more client waits.
  pushed-Told :
      (s : Server) (lid : ℕ) (id w : Bytes) (ws : List Bytes)
      → (info s lid).wait_list ≡ w ∷ ws
      → Told k s
      → Told k (set_info s lid (pushed (info s lid) id))
  pushed-Told s lid id w ws e h =
      set_info-told s lid (pushed (info s lid) id) s.tried (λ n. h)
        (λ q.
          let there : info_told lid (info s lid) s.tried ≡ true =
            subst (λ j. info_told j (info s j) s.tried ≡ true) (sym q) h in
          simp e (
            told_pushed lid (info s lid).state (info s lid).client_id id w ws s.tried (
              subst (λ l. told lid (info s lid).state (info s lid).client_id l s.tried ≡ true) e
                there)))

  acquire_locked-Told :
      (s : Server) (lid : ℕ) (id : Bytes) (a : Answer) (ws : List Bytes)
      → (info s lid).wait_list ≡ ws
      → (info s lid).state ≡ LockState.locked
      → (lid ≢ k → Told k s)
      → (is_granted (acquire_locked s lid id a ws).1 ≡ false → Told k s)
      → Told k (acquire_locked s lid id a ws).0
  unfolding acquire_locked revoke_lock
  acquire_locked-Told s lid id a [] e l other self =
      let m = Message.revoke lid (info s lid).client_id in
      set_info-told s lid (pushed (info s lid) id) (m ∷ s.tried) (λ n. later s m (other n))
        (λ q. simp (e, l) (revoke_told lid (info s lid).client_id (id ∷ []) s.tried))
  acquire_locked-Told s lid id a (w ∷ ws) e l other self = pushed-Told s lid id w ws e (self refl)

  -- The entry behind a grant of a free lock to the first that waits.
  granted-Told :
      (s : Server) (lid : ℕ) (id : Bytes) (a : Answer) (i : LockInfo) (ws : List Bytes)
      → i.state ≡ LockState.locked
      → i.client_id ≡ id
      → i.wait_list ≡ ws
      → (lid ≢ k → Told k s)
      → Told k (revoke_waited (set_info s lid i) lid id a ws)
  unfolding revoke_waited revoke_lock told
  granted-Told s lid id a i [] l c e h = set_info-told s lid i s.tried h (λ q. simp (l, e) refl)
  granted-Told s lid id a i (w ∷ ws) l c e h =
      let m = Message.revoke lid id in
      set_info-told s lid i (m ∷ s.tried) (λ n. later s m (h n))
        (λ q. simp (l, c, e) (revoke_told lid id (w ∷ ws) s.tried))

  acquire_free-Told :
      (s : Server) (lid : ℕ) (id : Bytes) (a : Answer) (ws : List Bytes)
      → (info s lid).wait_list ≡ ws
      → (lid ≢ k → Told k s)
      → (is_granted (acquire_free s lid id a ws).1 ≡ false → Told k s)
      → Told k (acquire_free s lid id a ws).0
  unfolding acquire_free update_lock_state told
  acquire_free-Told s lid id a [] e other self =
      set_info-told s lid (record (info s lid) { client_id = id; state = LockState.locked }) s.tried
        other (λ q. simp e refl)
  acquire_free-Told s lid id a (w ∷ ws) e other self =
      let popped = record (info s lid) { wait_list = ws } in
      let t = set_info s lid popped in
      let i = record (info t lid) { client_id = id; state = LockState.locked } in
      let given : Told k (revoke_waited (set_info t lid i) lid id a ws) =
        granted-Told t lid id a i ws refl refl (ap (λ j. j.wait_list) (info-set_info s lid popped))
          (λ n.
            subst (λ j. info_told k j s.tried ≡ true) (sym (info-set_info_ne s lid k popped n))
              (other n)) in
      elim (Bool-cases (id == w)) [
        | inl b ↦ rw b given
        | inr b ↦ let h : Told k s = self (rw b refl) in rw b (pushed-Told s lid id w ws e h)
      ]

  acquire_known-Told :
      (s : Server) (lid : ℕ) (id : Bytes) (a : Answer) (st : LockState)
      → (info s lid).state ≡ st
      → (lid ≢ k → Told k s)
      → (is_granted (acquire_known s lid id a st).1 ≡ false → Told k s)
      → Told k (acquire_known s lid id a st).0
  unfolding acquire_known
  acquire_known-Told s lid id a LockState.locked e other self =
      acquire_locked-Told s lid id a (info s lid).wait_list refl e other self
  acquire_known-Told s lid id a LockState.free e other self =
      acquire_free-Told s lid id a (info s lid).wait_list refl other self

  acquire_found-Told :
      (s : Server) (lid : ℕ) (id : Bytes) (a : Answer) (o : Option LockInfo)
      → lookup lid s.lock_list ≡ o
      → (lid ≢ k → Told k s)
      → (is_granted (acquire_found s lid id a o).1 ≡ false → Told k s)
      → Told k (acquire_found s lid id a o).0
  unfolding acquire_found create_lock told
  acquire_found-Told s lid id a none e other self =
      set_info-told s lid (created (info s lid) lid id) s.tried other (λ q. rw e refl)
  acquire_found-Told s lid id a (some i) e other self =
      acquire_known-Told s lid id a i.state (rw e refl) other self

  pub acquire-Told :
      (s : Server) (lid : ℕ) (id : Bytes) (a : Answer)
      → (lid ≢ k → Told k s)
      → (is_granted (acquire s lid id a).1 ≡ false → Told k s)
      → Told k (acquire s lid id a).0
  unfolding acquire
  acquire-Told s lid id a other self = acquire_found-Told s lid id a _ refl other self

  released-Told :
      (s : Server) (lid : ℕ) (a : Answer) (i : LockInfo) (ws : List Bytes)
      → i.state ≡ LockState.free
      → i.wait_list ≡ ws
      → (lid ≢ k → Told k s)
      → Told k (retry_waiting (set_info s lid i) lid a ws)
  unfolding retry_waiting retry_cli told
  released-Told s lid a i [] f e other = set_info-told s lid i s.tried other (λ q. simp (f, e) refl)
  released-Told s lid a i (w ∷ ws) f e other =
      let m = Message.retry lid w in
      set_info-told s lid i (m ∷ s.tried) (λ n. later s m (other n))
        (λ q. simp (f, e) (retry_told lid i.client_id w ws s.tried))

  pub release-Told :
      (s : Server) (lid : ℕ) (id : Bytes) (a : Answer)
      → (lid ≢ k → Told k s)
      → Told k (release s lid id a).0
  unfolding release update_lock_state
  release-Told s lid id a other =
      let i = record (info s lid) { client_id = []; state = LockState.free } in
      released-Told s lid a i (info (set_info s lid i) lid).wait_list refl
        (sym (ap (λ j. j.wait_list) (info-set_info s lid i))) other
