-- ===== src/Lock/Cached/Waiting.antt =====
-- Who waits for a lock of the caching lock server, and who has been told since the lock was granted or
-- released (lock_server_cache.cc).
use ds.Common.{
  ℕ, ◌≡◌, inl, inr, refl, Bool, true, false, ◌&&◌, List, [], ◌∷◌, Option, none, some, Bytes, lookup,
  value_or, nat_Eq, bytes_Eq, ◌==◌, nat_eq, if◌then◌else◌, arith, Bool-cases, subst,
}
use ds.Lock.Service.{LockCall}
use ds.Lock.Cached.{
  Status, LockState, LockInfo, no_lock, Message, Server, Answer, info, set_info, create_lock,
  update_lock_state, revoke_lock, acquire_locked, revoke_waited, acquire_free, acquire_known,
  acquire_found, acquire, retry_waiting, release, retry_cli, server,
}
use ds.Lock.Cached.Exclusion.{Request}
use ds.Lock.Cached.Told.{told, info_told, is_granted, Told, acquire-Told, release-Told}

-- A call with its effect on the server.
unfoldable pub serve : Server → LockCall Request → Server
serve s (LockCall.acquire lid r) = (acquire s lid r.0 r.1).0
serve s (LockCall.release lid r) = (release s lid r.0 r.1).0

unfoldable pub serve_all : Server → List (LockCall Request) → Server
unfolding serve
serve_all s [] = s
serve_all s (c ∷ cs) = serve_all (serve s c) cs

-- A call grants the lock `k` or releases it: the messages of the tenure before it count no more.
unfoldable pub begins : ℕ → Server → LockCall Request → Bool
begins k s (LockCall.acquire lid r) = nat_eq lid k && is_granted (acquire s lid r.0 r.1).1
begins k s (LockCall.release lid r) = nat_eq lid k

-- The server with the messages `ms` alone.
abbrev pub with_tried : Server → List Message → Server
with_tried s ms = record s { tried = ms }

-- The messages tried in the present tenure of the lock `k`, behind those in `ms`: since the last call
-- that granted the lock or released it, that call included.
unfoldable pub tried_since : ℕ → Server → List Message → List (LockCall Request) → List Message
unfolding serve begins
tried_since k s ms [] = ms
tried_since k s ms (c ∷ cs) =
    tried_since k (serve s c) (serve (with_tried s (if begins k s c then [] else ms)) c).tried cs

-- What a call does to the table, and what it answers, does not depend on the messages tried before.
abbrev Agrees : Server × Status → Server × Status → Type 0
Agrees x y = (x.0.lock_list ≡ y.0.lock_list) × (x.1 ≡ y.1)

module _ (s : Server) (ms : List Message) (lid : ℕ) (id : Bytes) (a : Answer) where
  acquire_locked-tried :
      (ws : List Bytes)
      → Agrees (acquire_locked (with_tried s ms) lid id a ws) (acquire_locked s lid id a ws)
  unfolding acquire_locked revoke_lock
  acquire_locked-tried [] = (refl, refl)
  acquire_locked-tried (w ∷ ws) = (refl, refl)

  acquire_free-tried :
      (ws : List Bytes)
      → Agrees (acquire_free (with_tried s ms) lid id a ws) (acquire_free s lid id a ws)
  unfolding acquire_free revoke_waited revoke_lock update_lock_state
  acquire_free-tried [] = (refl, refl)
  acquire_free-tried (w ∷ []) = elim (Bool-cases (id == w)) [
    | inl b ↦ rw b (refl, refl)
    | inr b ↦ rw b (refl, refl)
  ]
  acquire_free-tried (w ∷ (v ∷ ws)) = elim (Bool-cases (id == w)) [
    | inl b ↦ rw b (refl, refl)
    | inr b ↦ rw b (refl, refl)
  ]

  acquire_known-tried :
      (st : LockState)
      → Agrees (acquire_known (with_tried s ms) lid id a st) (acquire_known s lid id a st)
  unfolding acquire_known
  acquire_known-tried LockState.locked = acquire_locked-tried (info s lid).wait_list
  acquire_known-tried LockState.free = acquire_free-tried (info s lid).wait_list

  acquire_found-tried :
      (o : Option LockInfo)
      → Agrees (acquire_found (with_tried s ms) lid id a o) (acquire_found s lid id a o)
  unfolding acquire_found create_lock
  acquire_found-tried none = (refl, refl)
  acquire_found-tried (some i) = acquire_known-tried i.state

  retry_waiting-tried :
      (t : Server) (ws : List Bytes)
      → (retry_waiting (with_tried t ms) lid a ws).lock_list ≡ (retry_waiting t lid a ws).lock_list
  unfolding retry_waiting retry_cli
  retry_waiting-tried t [] = refl
  retry_waiting-tried t (w ∷ ws) = refl

acquire-tried :
    (s : Server) (ms : List Message) (lid : ℕ) (id : Bytes) (a : Answer)
    → (acquire (with_tried s ms) lid id a).1 ≡ (acquire s lid id a).1
unfolding acquire
acquire-tried s ms lid id a = (acquire_found-tried s ms lid id a (lookup lid s.lock_list)).1

serve-tried :
    (s : Server) (ms : List Message) (c : LockCall Request)
    → (serve (with_tried s ms) c).lock_list ≡ (serve s c).lock_list
unfolding serve acquire release update_lock_state
serve-tried s ms (LockCall.acquire lid r) =
    (acquire_found-tried s ms lid r.0 r.1 (lookup lid s.lock_list)).0
serve-tried s ms (LockCall.release lid r) =
    let i = record (info s lid) { client_id = []; state = LockState.free } in
    retry_waiting-tried s ms lid r.0 r.1 (set_info s lid i) (info (set_info s lid i) lid).wait_list

-- A call, from the messages of the tenure that it leaves.
serve-Told :
    (k : ℕ) (s : Server) (ms : List Message) (c : LockCall Request)
    → info_told k (info s k) ms ≡ true
    → Told k (serve (with_tried s (if begins k s c then [] else ms)) c)
unfolding serve begins
serve-Told k s ms (LockCall.acquire lid r) h =
    let b = nat_eq lid k && is_granted (acquire s lid r.0 r.1).1 in
    let t = with_tried s (if b then [] else ms) in
    let kept : b ≡ false → Told k t = λ e. rw e h in
    acquire-Told k t lid r.0 r.1
      (λ n.
        let e : nat_eq lid k ≡ false = ground (arith, nat_Eq.beq_iff lid k, n) in kept (rw e refl))
      (λ g.
        let f : is_granted (acquire s lid r.0 r.1).1 ≡ false =
          subst (λ q. is_granted q ≡ false) (acquire-tried s (if b then [] else ms) lid r.0 r.1)
            g in
        kept (ground (arith, f)))
serve-Told k s ms (LockCall.release lid r) h =
    release-Told k (with_tried s (if nat_eq lid k then [] else ms)) lid r.0 r.1
      (λ n. let e : nat_eq lid k ≡ false = ground (arith, nat_Eq.beq_iff lid k, n) in rw e h)

serve_all-since :
    (k : ℕ) (cs : List (LockCall Request)) (s : Server) (ms : List Message)
    → info_told k (info s k) ms ≡ true
    → info_told k (info (serve_all s cs) k) (tried_since k s ms cs) ≡ true
unfolding serve_all tried_since
serve_all-since k [] s ms h = h
serve_all-since k (c ∷ cs) s ms h =
    let t = with_tried s (if begins k s c then [] else ms) in
    serve_all-since k cs (serve s c) (serve t c).tried (
      subst (λ l. info_told k (value_or no_lock k l) (serve t c).tried ≡ true)
        (serve-tried s (if begins k s c then [] else ms) c) (serve-Told k s ms c h))

-- Whatever requests arrive from the start of the server on: where clients wait for a lock, a revoke
-- has been tried with its holder since the holder got the lock, or if the lock is free a retry with
-- the first that waits since the lock was released.
pub serve_all-told :
    (n k : ℕ) (cs : List (LockCall Request))
    → info_told k (info (serve_all (server n) cs) k) (tried_since k (server n) [] cs) ≡ true
unfolding server told lookup
serve_all-told n k cs = serve_all-since k cs (server n) [] refl
