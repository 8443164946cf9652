-- ===== src/Lock/Plain/Waiting.antt =====
-- The threads that wait in `acquire` of the lock server without a cache (lock_server.cc): the count of
-- a lock is the number of threads that wait for it, so that no release leaves one asleep.
use ds.Common.{
  ℕ, ◌+◌, ◌-◌, ◌≡◌, ◌≢◌, ◌<◌, refl, Bool, true, false, ◌&&◌, ◌||◌, List, [], ◌∷◌, Option, none,
  some, Bytes, lookup, or_else, nat_Eq, nat_eq, ltb, if◌then◌else◌, print_nat, arith, lookup-insert,
  lookup-insert_self, ap, ◌∙◌, sym, subst, Bool-cases, inl, inr,
}
use ds.Lock.Plain.{
  LStatus, free, locked, LockStatus, no_lock, LockServer, lock_server, set_lock, acquire_status,
  acquire_found, acquire, wake_status, wake, release,
}

-- The server, and the threads between a wait and its end: the lock that each waits for and its client.
pub record World : Type 0 where
  pub server : LockServer
  pub waiting : List (ℕ × ℕ)

-- A call of `acquire`, the end of a wait in it, or a call of `release`.
pub data Event : Type 0 where
  asks goes_on : ℕ → ℕ → Event
  releases : ℕ → Event

-- Whether a thread of the client waits for the lock.
unfoldable pub waits : ℕ → ℕ → List (ℕ × ℕ) → Bool
waits lid clt [] = false
waits lid clt ((k, c) ∷ ws) = (nat_eq lid k && nat_eq clt c) || waits lid clt ws

-- The others, when one of its threads waits no more.
unfoldable pub without : ℕ → ℕ → List (ℕ × ℕ) → List (ℕ × ℕ)
without lid clt [] = []
without lid clt ((k, c) ∷ ws) =
    let rest = without lid clt ws in if nat_eq lid k && nat_eq clt c then ws else (k, c) ∷ rest

-- How many threads wait for the lock.
unfoldable pub count : ℕ → List (ℕ × ℕ) → ℕ
count lid [] = 0
count lid ((k, c) ∷ ws) = (if nat_eq lid k then 1 else 0) + count lid ws

-- A thread that is granted the lock leaves, another one waits (on).
unfoldable pub step : World → Event → World
step w (Event.asks lid clt) =
    let (t, granted) = acquire w.server lid clt in
    record { server = t; waiting = if granted then w.waiting else (lid, clt) ∷ w.waiting }
step w (Event.goes_on lid clt) =
    let (t, granted) = wake w.server lid clt in
    let next : World = record {
      server = t;
      waiting = if granted then without lid clt w.waiting else w.waiting;
    } in
    if waits lid clt w.waiting then next else w
step w (Event.releases lid) = record w { server = (release w.server lid).0 }

unfoldable pub steps : World → List Event → World
unfolding step
steps w [] = w
steps w (e ∷ es) = steps (step w e) es

-- The server at its start.
abbrev pub start : World
start = record { server = lock_server; waiting = [] }

abbrev count_at : LockServer → ℕ → ℕ
count_at s lid = (or_else no_lock (lookup lid s.locks)).waiting_count

-- The count of each lock is the number of threads that wait for it.
abbrev IsCounted : World → Type 0
IsCounted w = (k : ℕ) → count_at w.server k ≡ count k w.waiting

waits-count : (lid clt : ℕ) (ws : List (ℕ × ℕ)) → waits lid clt ws ≡ true → 0 < count lid ws
unfolding waits count
waits-count lid clt [] h = absurd (cc)
waits-count lid clt ((k, c) ∷ ws) h = ground (arith, waits-count lid clt ws)

count-without :
    (k lid clt : ℕ) (ws : List (ℕ × ℕ))
    → waits lid clt ws ≡ true
    → count k (without lid clt ws) ≡ count k ws - (if nat_eq k lid then 1 else 0)
unfolding waits count without
count-without k lid clt [] h = absurd (cc)
count-without k lid clt ((j, c) ∷ ws) h = ground (
  arith,
  count-without k lid clt ws,
  waits-count lid clt ws,
  nat_Eq.beq_iff k lid,
  nat_Eq.beq_iff lid j,
  nat_Eq.beq_iff k j,
)

-- A lock with a new entry.
counted :
    (s : LockServer) (lid : ℕ) (l : LockStatus) (ws vs : List (ℕ × ℕ))
    → IsCounted (record { server = s; waiting = ws })
    → l.waiting_count ≡ count lid vs
    → ((k : ℕ) → lid ≢ k → count k vs ≡ count k ws)
    → IsCounted (record { server = set_lock s lid l; waiting = vs })
counted s lid l ws vs h e f k =
    ap (λ o. (or_else no_lock o).waiting_count) (lookup-insert {K = ℕ} lid k l s.locks)
    ∙ elim (Bool-cases (nat_eq lid k)) [
      | inl q ↦
          subst
            (λ b.
              (or_else no_lock (if b then some l else lookup k s.locks)).waiting_count ≡ count k vs)
            (sym q) (e ∙ ap (λ j. count j vs) ((nat_Eq.beq_iff lid k).0 q))
      | inr q ↦
          let n : lid ≢ k = ground (arith, nat_Eq.beq_iff lid k) in
          subst
            (λ b.
              (or_else no_lock (if b then some l else lookup k s.locks)).waiting_count ≡ count k vs)
            (sym q) (h k ∙ sym (f k n))
    ]

-- One more thread waits.
more : (lid clt : ℕ) (ws : List (ℕ × ℕ)) → count lid ((lid, clt) ∷ ws) ≡ count lid ws + 1
unfolding count
more lid clt ws = ground (arith, nat_Eq.beq_iff lid lid)

more_ne : (lid clt k : ℕ) (ws : List (ℕ × ℕ)) → lid ≢ k → count k ((lid, clt) ∷ ws) ≡ count k ws
unfolding count
more_ne lid clt k ws n = ground (arith, nat_Eq.beq_iff k lid, n)

less :
    (lid clt : ℕ) (ws : List (ℕ × ℕ))
    → waits lid clt ws ≡ true
    → count lid (without lid clt ws) ≡ count lid ws - 1
less lid clt ws h = ground (arith, count-without lid lid clt ws h, nat_Eq.beq_iff lid lid)

less_ne :
    (lid clt k : ℕ) (ws : List (ℕ × ℕ))
    → waits lid clt ws ≡ true
    → lid ≢ k
    → count k (without lid clt ws) ≡ count k ws
less_ne lid clt k ws h n = ground (arith, count-without k lid clt ws h, nat_Eq.beq_iff k lid, n)

abbrev asked : ℕ → ℕ → List (ℕ × ℕ) → LockServer × Bool → World
asked lid clt ws (t, granted) = record {
  server = t;
  waiting = if granted then ws else (lid, clt) ∷ ws;
}

abbrev gone_on : ℕ → ℕ → List (ℕ × ℕ) → LockServer × Bool → World
gone_on lid clt ws (t, granted) = record {
  server = t;
  waiting = if granted then without lid clt ws else ws;
}

acquire_status-IsCounted :
    (s : LockServer) (lid clt : ℕ) (id : Bytes) (l : LockStatus) (t : LStatus) (ws : List (ℕ × ℕ))
    → IsCounted (record { server = s; waiting = ws })
    → l.waiting_count ≡ count lid ws
    → IsCounted (asked lid clt ws (acquire_status s lid id l t))
acquire_status-IsCounted s lid clt id l free ws h e =
    counted s lid (record l { status = locked; client_id = id }) ws ws h e (λ k n. refl)
acquire_status-IsCounted s lid clt id l locked ws h e =
    counted s lid (record l { waiting_count = l.waiting_count + 1 }) ws ((lid, clt) ∷ ws) h
      (ap (λ n. n + 1) e ∙ sym (more lid clt ws)) (λ k n. more_ne lid clt k ws n)

acquire_found-IsCounted :
    (s : LockServer) (lid clt : ℕ) (id : Bytes) (o : Option LockStatus) (ws : List (ℕ × ℕ))
    → lookup lid s.locks ≡ o
    → IsCounted (record { server = s; waiting = ws })
    → IsCounted (asked lid clt ws (acquire_found s lid id o))
unfolding acquire_found
acquire_found-IsCounted s lid clt id none ws e h =
    let l : LockStatus = record { status = locked; client_id = id; waiting_count = 0 } in
    counted s lid l ws ws h
      (subst (λ o. (or_else no_lock o).waiting_count ≡ count lid ws) e (h lid)) (λ k n. refl)
acquire_found-IsCounted s lid clt id (some l) ws e h =
    acquire_status-IsCounted s lid clt id l l.status ws h
      (subst (λ o. (or_else no_lock o).waiting_count ≡ count lid ws) e (h lid))

wake_status-IsCounted :
    (s : LockServer) (lid clt : ℕ) (id : Bytes) (l : LockStatus) (t : LStatus) (ws : List (ℕ × ℕ))
    → IsCounted (record { server = s; waiting = ws })
    → l.waiting_count ≡ count lid ws
    → waits lid clt ws ≡ true
    → IsCounted (gone_on lid clt ws (wake_status s lid id l t))
wake_status-IsCounted s lid clt id l free ws h e w =
    counted s lid (record { status = locked; client_id = id; waiting_count = l.waiting_count - 1 })
      ws (without lid clt ws) h (ap (λ n. n - 1) e ∙ sym (less lid clt ws w))
      (λ k n. less_ne lid clt k ws w n)
wake_status-IsCounted s lid clt id l locked ws h e w =
    counted s lid (record l { waiting_count = l.waiting_count - 1 + 1 }) ws ws h
      (omega (arith, e, waits-count lid clt ws w)) (λ k n. refl)

step-IsCounted : (w : World) (e : Event) → IsCounted w → IsCounted (step w e)
unfolding step acquire wake release
step-IsCounted w (Event.asks lid clt) h =
    acquire_found-IsCounted w.server lid clt (print_nat clt) (lookup lid w.server.locks) w.waiting
      refl h
step-IsCounted w (Event.goes_on lid clt) h =
    let l = or_else no_lock (lookup lid w.server.locks) in
    elim (Bool-cases (waits lid clt w.waiting)) [
      | inl q ↦
          rw q (
            wake_status-IsCounted w.server lid clt (print_nat clt) l l.status w.waiting h (h lid) q)
      | inr q ↦ rw q h
    ]
step-IsCounted w (Event.releases lid) h =
    let l = or_else no_lock (lookup lid w.server.locks) in
    counted w.server lid (record l { status = free; client_id = [] }) w.waiting w.waiting h (h lid)
      (λ k n. refl)

steps-IsCounted : (es : List Event) (w : World) → IsCounted w → IsCounted (steps w es)
unfolding steps
steps-IsCounted [] w h = h
steps-IsCounted (e ∷ es) w h = steps-IsCounted es (step w e) (step-IsCounted w e h)

start-IsCounted : IsCounted start
unfolding count lookup
start-IsCounted k = refl

woken : (s : LockServer) (lid clt : ℕ) → (wake (release s lid).0 lid clt).1 ≡ true
unfolding release wake
woken s lid clt =
    let l = or_else no_lock (lookup lid s.locks) in
    let m = lookup-insert_self {K = ℕ} lid (record l { status = free; client_id = [] }) s.locks in
    simp m refl

broadcast : (s : LockServer) (lid : ℕ) → (release s lid).1 ≡ ltb 0 (count_at s lid)
unfolding release
broadcast s lid =
    let l = or_else no_lock (lookup lid s.locks) in
    let m = lookup-insert_self {K = ℕ} lid (record l { status = free; client_id = [] }) s.locks in
    simp m refl

-- After any history of requests, ends of waits and releases from the start of the server on: when a
-- thread of the client waits for the lock, a release of the lock wakes those that wait, and the thread,
-- when it goes on next, gets the lock, so that one fewer waits for it.
pub release_wakes :
    (es : List Event) (lid clt : ℕ)
    → waits lid clt (steps start es).waiting ≡ true
    → let w = steps start es in
      let t = step (step w (Event.releases lid)) (Event.goes_on lid clt) in
      ((release w.server lid).1 ≡ true)
      × ((wake (step w (Event.releases lid)).server lid clt).1 ≡ true)
      × (count lid t.waiting + 1 ≡ count lid w.waiting)
unfolding step
release_wakes es lid clt h =
    let w = steps start es in
    let c = steps-IsCounted es start start-IsCounted lid in
    let some_wait = waits-count lid clt w.waiting h in
    let g = woken w.server lid clt in
    let one = less lid clt w.waiting h in
    (
      broadcast w.server lid ∙ ground (arith, c, some_wait),
      g,
      rw (h, g) (omega (arith, one, some_wait)),
    )
