-- ===== src/Lock/Cached/Order.antt =====
-- In which order the caching lock server grants a lock (lock_server_cache.cc).
use ds.Common.{
  ℕ, ◌≡◌, ◌⊎◌, inl, inr, refl, sym, ap, ◌∙◌, true, false, List, [], ◌∷◌, ◌++◌, Option, none, some,
  Bytes, lookup, nat_Eq, bytes_Eq, ◌==◌, arith, Bool-cases,
}
use ds.Lock.Cached.{
  Status, LockState, LockInfo, Server, Answer, info, revoke_lock, pushed, push_back, acquire_locked,
  acquire_free, acquire_known, acquire_found, acquire,
}
use ds.Lock.Cached.Exclusion.{is_ok}
use ds.Lock.Cached.Told.{info-set_info}

-- The client is the first of a wait list, or nobody waits.
abbrev pub IsNext : Bytes → List Bytes → Type 0
IsNext id l = (l ≡ []) ⊎ ((ws : List Bytes) × (l ≡ id ∷ ws))

IsOrdered : Server → ℕ → Bytes → Server × Status → Type 0
IsOrdered s lid id r =
    (is_ok r.1 ≡ true → IsNext id (info s lid).wait_list)
    × (is_ok r.1 ≡ false → (info r.0 lid).wait_list ≡ (info s lid).wait_list ++ (id ∷ []))

push_back-wait_list :
    (s : Server) (lid : ℕ) (id : Bytes)
    → (info (push_back s lid id) lid).wait_list ≡ (info s lid).wait_list ++ (id ∷ [])
push_back-wait_list s lid id = ap (λ i. i.wait_list) (info-set_info s lid (pushed (info s lid) id))

acquire_locked-IsOrdered :
    (s : Server) (lid : ℕ) (id : Bytes) (a : Answer) (ws : List Bytes)
    → IsOrdered s lid id (acquire_locked s lid id a ws)
unfolding acquire_locked revoke_lock IsOrdered
acquire_locked-IsOrdered s lid id a [] = (λ h. ground arith, λ h. push_back-wait_list s lid id)
acquire_locked-IsOrdered s lid id a (w ∷ ws) =
    (λ h. ground arith, λ h. push_back-wait_list s lid id)

acquire_free-IsOrdered :
    (s : Server) (lid : ℕ) (id : Bytes) (a : Answer) (ws : List Bytes)
    → (info s lid).wait_list ≡ ws
    → IsOrdered s lid id (acquire_free s lid id a ws)
unfolding acquire_free IsOrdered
acquire_free-IsOrdered s lid id a [] e = (λ h. inl e, λ h. ground arith)
acquire_free-IsOrdered s lid id a (w ∷ ws) e = elim (Bool-cases (id == w)) [
  | inl y ↦
      rw y
        (λ h. inr (ws, e ∙ ap (λ x. x ∷ ws) (sym ((bytes_Eq.beq_iff id w).0 y))), λ h. ground arith)
  | inr y ↦ rw y (λ h. ground arith, λ h. push_back-wait_list s lid id)
]

acquire_known-IsOrdered :
    (s : Server) (lid : ℕ) (id : Bytes) (a : Answer) (st : LockState)
    → IsOrdered s lid id (acquire_known s lid id a st)
unfolding acquire_known
acquire_known-IsOrdered s lid id a LockState.locked =
    acquire_locked-IsOrdered s lid id a (info s lid).wait_list
acquire_known-IsOrdered s lid id a LockState.free =
    acquire_free-IsOrdered s lid id a (info s lid).wait_list refl

acquire_found-IsOrdered :
    (s : Server) (lid : ℕ) (id : Bytes) (a : Answer) (o : Option LockInfo)
    → lookup lid s.lock_list ≡ o
    → IsOrdered s lid id (acquire_found s lid id a o)
unfolding acquire_found IsOrdered
acquire_found-IsOrdered s lid id a none e = (λ h. inl (rw e refl), λ h. ground arith)
acquire_found-IsOrdered s lid id a (some i) e = acquire_known-IsOrdered s lid id a i.state

-- A request that is granted comes from the first client that waits for the lock, or nobody waits.
pub acquire-IsNext :
    (s : Server) (lid : ℕ) (id : Bytes) (a : Answer)
    → is_ok (acquire s lid id a).1 ≡ true
    → IsNext id (info s lid).wait_list
unfolding acquire IsOrdered
acquire-IsNext s lid id a h = (acquire_found-IsOrdered s lid id a (lookup lid s.lock_list) refl).0 h

-- A request that is not granted is put last in the wait list of the lock.
pub acquire_waits :
    (s : Server) (lid : ℕ) (id : Bytes) (a : Answer)
    → is_ok (acquire s lid id a).1 ≡ false
    → (info (acquire s lid id a).0 lid).wait_list ≡ (info s lid).wait_list ++ (id ∷ [])
unfolding acquire IsOrdered
acquire_waits s lid id a h = (acquire_found-IsOrdered s lid id a (lookup lid s.lock_list) refl).1 h
