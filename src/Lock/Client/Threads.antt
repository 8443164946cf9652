-- ===== src/Lock/Client/Threads.antt =====
-- The threads of the caching lock client (lock_client_cache.cc) as steps of one client and one lock.
use ds.Common.{
  ℕ, ◌≡◌, ◌≢◌, refl, sym, ap, ◌∙◌, subst, Bool, true, false, Option, none, some, nat_eq, nat_Eq,
  or_else, arith, Bool-cases, inl, inr,
}
use ds.Lock.Client.{
  LockState, none_state, free, locked, acquiring, releasing, LockInfo, no_info, Pc, outside,
  wait_free, wait_none, calling, retrying, wait_retry, recalling, granted, holding, giving_back,
  LockClient, Response, ok, retry, failed, info, at, goes, create_lock, update_lock_state, queued,
  acquire_found, acquire_entry, acquire, take_free, take_none, called, check_retry, take_retry,
  recalled, settle, is_nil, release, is_free, revoke_handler, given_back, retry_handler,
  lock_client_cache,
}

-- The answers with which the client works: the server grants a lock, or asks to try again, and grants it
-- to the client that tries again; a call of `release` may fail.
pub data Step : LockClient → LockClient → Type 0 where
  acquires : (c : LockClient) (t : ℕ) → c.threads t ≡ outside → Step c (acquire c t)
  takes_free :
      (c : LockClient) (t : ℕ)
      → c.threads t ≡ wait_free
      → (info c).state ≡ free
      → Step c (take_free c t)
  takes_none :
      (c : LockClient) (t : ℕ)
      → c.threads t ≡ wait_none
      → (info c).state ≡ none_state
      → Step c (take_none c t)
  is_granted : (c : LockClient) (t : ℕ) → c.threads t ≡ calling → Step c (called c t ok)
  is_put_off : (c : LockClient) (t : ℕ) → c.threads t ≡ calling → Step c (called c t retry)
  checks_retry : (c : LockClient) (t : ℕ) → c.threads t ≡ retrying → Step c (check_retry c t)
  takes_retry :
      (c : LockClient) (t : ℕ)
      → c.threads t ≡ wait_retry
      → (info c).to_retry ≡ true
      → Step c (take_retry c t)
  is_granted_again : (c : LockClient) (t : ℕ) → c.threads t ≡ recalling → Step c (recalled c t ok)
  settles : (c : LockClient) (t : ℕ) → c.threads t ≡ granted → Step c (settle c t)
  releases : (c : LockClient) (t : ℕ) → c.threads t ≡ holding → Step c (release c t)
  is_revoked : (c : LockClient) (t : ℕ) → c.threads t ≡ outside → Step c (revoke_handler c t)
  is_given_back :
      (c : LockClient) (t : ℕ) (r : Response)
      → c.threads t ≡ giving_back
      → Step c (given_back c t r)
  is_ready : (c : LockClient) → Step c (retry_handler c)

-- The state of the entry while a thread is where it is, if the thread decides it.
abbrev pub state_of : Pc → Option LockState
state_of outside = none
state_of wait_free = none
state_of wait_none = none
state_of calling = some acquiring
state_of retrying = some acquiring
state_of wait_retry = some acquiring
state_of recalling = some acquiring
state_of granted = some acquiring
state_of holding = some locked
state_of giving_back = some releasing

-- A thread that decides the state of the entry is the one that the entry names.
abbrev pub Owns : LockInfo → ℕ → Option LockState → Type 0
Owns i t none = Unit {0}
Owns i t (some s) = (i.state ≡ s) × (i.thread_id ≡ t)

abbrev pub IsOwned : LockClient → Type 0
IsOwned c = (t : ℕ) → Owns (info c) t (state_of (c.threads t))

nat_of : (t u : ℕ) → nat_eq t u ≡ true → t ≡ u
nat_of t u n = ground arith

-- Whether a thread may be at work on the lock in a state.
abbrev busy : LockState → Bool
busy none_state = false
busy free = false
busy locked = true
busy acquiring = true
busy releasing = true

-- Of the other threads none decides the state, when it is not busy or when it is this thread's.
idle :
    (i : LockInfo) (u : ℕ) (p : Pc)
    → Owns i u (state_of p)
    → busy i.state ≡ false
    → state_of p ≡ none
idle i u outside h k = refl
idle i u wait_free h k = refl
idle i u wait_none h k = refl
idle i u calling h k = absurd (ground (arith, h.0, k))
idle i u retrying h k = absurd (ground (arith, h.0, k))
idle i u wait_retry h k = absurd (ground (arith, h.0, k))
idle i u recalling h k = absurd (ground (arith, h.0, k))
idle i u granted h k = absurd (ground (arith, h.0, k))
idle i u holding h k = absurd (ground (arith, h.0, k))
idle i u giving_back h k = absurd (ground (arith, h.0, k))

foreign :
    (i : LockInfo) (t u : ℕ) (o : Option LockState)
    → Owns i u o
    → i.thread_id ≡ t
    → nat_eq t u ≡ false
    → o ≡ none
foreign i t u none h k n = refl
foreign i t u (some s) h k n = absurd (ground (arith, h.1, k, n))

owner :
    (i : LockInfo) (t : ℕ) (s : LockState) (o : Option LockState)
    → o ≡ some s
    → Owns i t o
    → (i.state ≡ s) × (i.thread_id ≡ t)
owner i t s o e h = subst (λ p. Owns i t p) e h

same_info :
    (i j : LockInfo) (u : ℕ) (o : Option LockState)
    → j.state ≡ i.state
    → j.thread_id ≡ i.thread_id
    → Owns i u o
    → Owns j u o
same_info i j u none e f h = h
same_info i j u (some s) e f h = (e ∙ h.0, f ∙ h.1)

module _ (c : LockClient) (t : ℕ) (p : Pc) (e : Option LockInfo) (h : IsOwned c) where
  abbrev moved : LockClient
  moved = record { entry = e; threads = at c.threads t p }

  -- A step that keeps the state and the thread of the entry.
  moved_same :
      (or_else no_info e).state ≡ (info c).state
      → (or_else no_info e).thread_id ≡ (info c).thread_id
      → Owns (or_else no_info e) t (state_of p)
      → IsOwned moved
  moved_same k l o u = elim (Bool-cases (nat_eq t u)) [
    | inl n ↦ simp n (subst (λ v. Owns (or_else no_info e) v (state_of p)) (nat_of t u n) o)
    | inr n ↦ simp n (same_info (info c) (or_else no_info e) u (state_of (c.threads u)) k l (h u))
  ]

  -- A step after which no other thread decides the state.
  moved_alone :
      ((u : ℕ) → nat_eq t u ≡ false → state_of (c.threads u) ≡ none)
      → Owns (or_else no_info e) t (state_of p)
      → IsOwned moved
  moved_alone k o u = elim (Bool-cases (nat_eq t u)) [
    | inl n ↦ simp n (subst (λ v. Owns (or_else no_info e) v (state_of p)) (nat_of t u n) o)
    | inr n ↦ simp (n, k u n) tt
  ]

-- What a step finds of its own thread.
module _ (c : LockClient) (t : ℕ) (h : IsOwned c) where
  pub owned :
      (q : Pc) (s : LockState)
      → c.threads t ≡ q
      → state_of q ≡ some s
      → ((info c).state ≡ s) × ((info c).thread_id ≡ t)
  owned q s e k = owner (info c) t s (state_of (c.threads t)) (ap state_of e ∙ k) (h t)

  alone :
      (q : Pc) (s : LockState)
      → c.threads t ≡ q
      → state_of q ≡ some s
      → (u : ℕ) → nat_eq t u ≡ false
      → state_of (c.threads u) ≡ none
  alone q s e k u n = foreign (info c) t u (state_of (c.threads u)) (h u) (owned q s e k).1 n

  at_rest :
      busy (info c).state ≡ false → (u : ℕ) → nat_eq t u ≡ false → state_of (c.threads u) ≡ none
  at_rest k u n = idle (info c) u (c.threads u) (h u) k

-- The thread goes to a wait, and the state stays.
waits :
    (c : LockClient) (t : ℕ) (p : Pc) (i : LockInfo)
    → state_of p ≡ none
    → i.state ≡ (info c).state
    → i.thread_id ≡ (info c).thread_id
    → IsOwned c
    → IsOwned (goes c t p i)
waits c t p i e k l h = moved_same c t p (some i) h k l (subst (Owns i t) (sym e) tt)

acquire_found-IsOwned :
    (c : LockClient) (t : ℕ) (i : LockInfo) (s : LockState)
    → info c ≡ i
    → i.state ≡ s
    → IsOwned c
    → IsOwned (acquire_found c t i s)
unfolding acquire_found
acquire_found-IsOwned c t i none_state e f h = elim (Bool-cases i.waiting_to_acq) [
  | inl w ↦ simp w (waits c t wait_free (queued i t) refl (ground (arith, e)) (ground (arith, e)) h)
  | inr w ↦ simp w (
      moved_alone c t calling (some (update_lock_state i t acquiring)) h
        (at_rest c t h (ap busy (ap (λ (j : LockInfo). j.state) e ∙ f))) (refl, refl))
]
acquire_found-IsOwned c t i free e f h =
    moved_alone c t holding (some (update_lock_state i t locked)) h
      (at_rest c t h (ap busy (ap (λ (j : LockInfo). j.state) e ∙ f))) (refl, refl)
acquire_found-IsOwned c t i acquiring e f h =
    waits c t wait_free (queued i t) refl (ground (arith, e)) (ground (arith, e)) h
acquire_found-IsOwned c t i locked e f h =
    waits c t wait_free (queued i t) refl (ground (arith, e)) (ground (arith, e)) h
acquire_found-IsOwned c t i releasing e f h = elim (Bool-cases i.waiting_to_acq) [
  | inl w ↦ simp w (waits c t wait_free (queued i t) refl (ground (arith, e)) (ground (arith, e)) h)
  | inr w ↦ simp w (
      waits c t wait_none (record i { waiting_to_acq = true }) refl (ground (arith, e))
        (ground (arith, e)) h)
]

acquire_entry-IsOwned :
    (c : LockClient) (t : ℕ) (e : Option LockInfo)
    → c.entry ≡ e
    → IsOwned c
    → IsOwned (acquire_entry c t e)
unfolding acquire_entry
acquire_entry-IsOwned c t none e h =
    moved_alone c t calling (some (create_lock t)) h
      (at_rest c t h (ap (λ o. busy (or_else no_info o).state) e)) (refl, refl)
acquire_entry-IsOwned c t (some i) e h =
    acquire_found-IsOwned c t i i.state (ap (or_else no_info) e) refl h

release-IsOwned :
    (c : LockClient) (t : ℕ) → c.threads t ≡ holding → IsOwned c → IsOwned (release c t)
unfolding release
release-IsOwned c t e h =
    let i = update_lock_state (info c) t free in
    let given = record (update_lock_state i t releasing) { to_revoke = false } in
    let o = alone c t h holding locked e refl in
    let out = moved_alone c t outside (some i) h o tt in
    let gives = moved_alone c t giving_back (some given) h o (refl, refl) in
    elim (Bool-cases (is_nil (info c).wait_list)) [
      | inl n ↦ elim (Bool-cases (info c).to_revoke) [
        | inl r ↦ simp (n, r) gives
        | inr r ↦ simp (n, r) out
      ]
      | inr n ↦ simp n out
    ]

is_free_idle : (s : LockState) → is_free s ≡ true → busy s ≡ false
is_free_idle free h = refl
is_free_idle none_state h = cc
is_free_idle locked h = cc
is_free_idle acquiring h = cc
is_free_idle releasing h = cc

revoke_handler-IsOwned : (c : LockClient) (t : ℕ) → IsOwned c → IsOwned (revoke_handler c t)
unfolding revoke_handler
revoke_handler-IsOwned c t h =
    let i = record (info c) { to_revoke = true } in
    let given = record (update_lock_state i t releasing) { to_revoke = false } in
    let out = waits c t outside i refl refl refl h in
    elim (Bool-cases (is_free (info c).state)) [
      | inl f ↦ elim (Bool-cases (is_nil (info c).wait_list)) [
        | inl n ↦
            simp (f, n)
              (moved_alone c t giving_back (some given) h
                (at_rest c t h (is_free_idle (info c).state f)) (refl, refl))
        | inr n ↦ simp (f, n) out
      ]
      | inr f ↦ simp f out
    ]

given_back-IsOwned :
    (c : LockClient) (t : ℕ) (r : Response)
    → c.threads t ≡ giving_back
    → IsOwned c
    → IsOwned (given_back c t r)
unfolding given_back
given_back-IsOwned c t ok e h =
    moved_alone c t outside (some (update_lock_state (info c) t none_state)) h
      (alone c t h giving_back releasing e refl) tt
given_back-IsOwned c t retry e h = moved_same c t outside c.entry h refl refl tt
given_back-IsOwned c t failed e h = moved_same c t outside c.entry h refl refl tt

check_retry-IsOwned :
    (c : LockClient) (t : ℕ) → c.threads t ≡ retrying → IsOwned c → IsOwned (check_retry c t)
unfolding check_retry
check_retry-IsOwned c t e h =
    let o = owned c t h retrying acquiring e refl in
    let again =
      moved_same c t recalling (some (record (info c) { to_retry = false })) h refl refl o in
    let wait =
      moved_same c t wait_retry (some (record (info c) { waiting_to_retry = true })) h refl refl
        o in
    elim (Bool-cases (info c).to_retry) [ inl r ↦ simp r again | inr r ↦ simp r wait ]

-- Every step keeps the owner of the state.
pub Step-IsOwned : {c d : LockClient} → Step c d → IsOwned c → IsOwned d
unfolding acquire take_free take_none called take_retry recalled settle retry_handler
Step-IsOwned (Step.acquires c t p) h = acquire_entry-IsOwned c t c.entry refl h
Step-IsOwned (Step.takes_free c t p s) h =
    moved_alone c t holding (take_free c t).entry h (at_rest c t h (ap busy s)) (refl, refl)
Step-IsOwned (Step.takes_none c t p s) h =
    moved_alone c t calling (take_none c t).entry h (at_rest c t h (ap busy s)) (refl, refl)
Step-IsOwned (Step.is_granted c t p) h =
    moved_same c t granted c.entry h refl refl (owned c t h calling acquiring p refl)
Step-IsOwned (Step.is_put_off c t p) h =
    moved_same c t retrying c.entry h refl refl (owned c t h calling acquiring p refl)
Step-IsOwned (Step.checks_retry c t p) h = check_retry-IsOwned c t p h
Step-IsOwned (Step.takes_retry c t p r) h =
    moved_same c t recalling (take_retry c t).entry h refl refl
      (owned c t h wait_retry acquiring p refl)
Step-IsOwned (Step.is_granted_again c t p) h =
    moved_same c t granted c.entry h refl refl (owned c t h recalling acquiring p refl)
Step-IsOwned (Step.settles c t p) h =
    moved_alone c t holding (settle c t).entry h (alone c t h granted acquiring p refl) (refl, refl)
Step-IsOwned (Step.releases c t p) h = release-IsOwned c t p h
Step-IsOwned (Step.is_revoked c t p) h = revoke_handler-IsOwned c t h
Step-IsOwned (Step.is_given_back c t r p) h = given_back-IsOwned c t r p h
Step-IsOwned (Step.is_ready c) h = λ u.
    same_info (info c) (record (info c) { to_retry = true }) u (state_of (c.threads u)) refl refl
      (h u)

-- What a client comes to from its start.
pub data Reaches : LockClient → Type 0 where
  starts : Reaches lock_client_cache
  goes_on : (c d : LockClient) → Reaches c → Step c d → Reaches d

pub Reaches-IsOwned : {c : LockClient} → Reaches c → IsOwned c
Reaches-IsOwned Reaches.starts = λ t. tt
Reaches-IsOwned (Reaches.goes_on c d r s) = Step-IsOwned s (Reaches-IsOwned r)

pub holding_state :
    (c : LockClient) (t : ℕ)
    → IsOwned c
    → c.threads t ≡ holding
    → ((info c).state ≡ locked) × ((info c).thread_id ≡ t)
holding_state c t h e = owned c t h holding locked e refl

-- However the threads of a client interleave, and whenever the server revokes the lock or lets the
-- client try again, at most one thread has the lock, and while the files behind the lock are flushed
-- and the lock goes back no thread has it. The calls of `acquire` are answered, and a second call
-- grants the lock.
pub holding_alone :
    (c : LockClient) (t u : ℕ)
    → Reaches c
    → c.threads t ≡ holding
    → (c.threads u ≡ holding → t ≡ u) × (c.threads u ≢ giving_back)
holding_alone c t u r e =
    let h = Reaches-IsOwned r in
    let (s, i) = holding_state c t h e in
    (
      λ f. sym i ∙ (holding_state c u h f).1,
      λ f. let g = owned c u h giving_back releasing f refl in ground (arith, s, g.0),
    )
