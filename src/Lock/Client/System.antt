-- ===== src/Lock/Client/System.antt =====
-- The threads of all clients of a lock server (lock_client_cache.cc) on the interface of the server. A
-- call and its answer are one step; the server may refuse, and the request or the answer may be lost.
use ds.Common.{
  ℕ, ◌≡◌, ◌≢◌, refl, sym, ◌∙◌, subst, Bool, true, false, not, ◌&&◌, nat_eq, nat_Eq, if◌then◌else◌,
  arith, Bool-cases, inl, inr,
}
use ds.Lock.Service.{LockService}
use ds.Lock.Client.{
  releasing, outside, calling, retrying, recalling, holding, giving_back, LockClient, Response, ok,
  retry, failed, info, called, recalled, given_back, lock_client_cache,
}
use ds.Lock.Client.Threads.{Step, IsOwned, Step-IsOwned, holding_state, owned}
use ds.Lock.Client.Having.{has, is_answer, stays, not_got, holding_has, Step-has}

abbrev is_failed : Response → Bool
is_failed failed = true
is_failed _ = false

abbrev is_ok : Response → Bool
is_ok ok = true
is_ok _ = false

nat_of : (i j : ℕ) → nat_eq i j ≡ true → i ≡ j
nat_of i j e = ground arith

ne_of : (i j : ℕ) → nat_eq i j ≡ false → i ≢ j
ne_of i j e f = ground (arith, e, f)

not_has : (c : LockClient) (l : Bool) → (has c ≡ true → l ≡ true) → l ≡ false → has c ≡ false
not_has c l h f = elim (Bool-cases (has c)) [
  | inl g ↦ let k : false ≡ true = sym f ∙ h g in absurd (cc)
  | inr g ↦ g
]

put_off-has : (c : LockClient) (t : ℕ) → has (called c t retry) ≡ true → has c ≡ true
unfolding called
put_off-has c t h = stays c t retrying (info c).state (info c).thread_id refl h

giving_has : (c : LockClient) (t : ℕ) → IsOwned c → c.threads t ≡ giving_back → has c ≡ true
giving_has c t o e = let (s, i) = owned c t o giving_back releasing e refl in simp (s, i, e) refl

-- Whatever is answered, a client that gave the lock back has it no more.
gave_up :
    (c : LockClient) (t : ℕ) (r : Response)
    → IsOwned c
    → c.threads t ≡ giving_back
    → has (given_back c t r) ≡ true
    → ⊥
unfolding given_back
gave_up c t ok o e h = cc
gave_up c t retry o e h =
    let (s, i) = owned c t o giving_back releasing e refl in
    let g : false ≡ true = not_got c t outside refl (simp (s, i) at h) in absurd (cc)
gave_up c t failed o e h =
    let (s, i) = owned c t o giving_back releasing e refl in
    let g : false ≡ true = not_got c t outside refl (simp (s, i) at h) in absurd (cc)

module _ {S R : Type 0} (service : LockService S R) (lid : ℕ) (request : ℕ → R) where
  -- The server and its clients.
  pub record System : Type 0 where
    pub server : S
    pub clients : ℕ → LockClient

  abbrev pub client_at : (ℕ → LockClient) → ℕ → LockClient → ℕ → LockClient
  client_at clients k d j = if nat_eq k j then d else clients j

  abbrev pub asked : System → ℕ → S × Bool
  asked y k = service.acquire y.server lid (request k)

  abbrev pub freed : System → ℕ → S
  freed y k = service.release y.server lid (request k)

  abbrev pub becomes : System → ℕ → S → LockClient → System
  becomes y k s d = record { server = s; clients = client_at y.clients k d }

  -- A call of `acquire`: the state of the server behind it, and what `cl->call` returns. The server
  -- answers OK exactly if it grants the lock; the call may fail, executed or not.
  pub data AcquireCall (y : System) (k : ℕ) : S → Response → Type 0 where
    grants : (asked y k).1 ≡ true → AcquireCall y k (asked y k).0 ok
    refuses : (r : Response) → (asked y k).1 ≡ false → r ≢ ok → AcquireCall y k (asked y k).0 r
    loses_answer : AcquireCall y k (asked y k).0 failed
    loses_request : AcquireCall y k y.server failed

  -- A call of `release`.
  pub data ReleaseCall (y : System) (k : ℕ) : S → Response → Type 0 where
    frees : (r : Response) → ReleaseCall y k (freed y k) r
    loses_request : ReleaseCall y k y.server failed

  -- A step of a client, with the server when it is a call.
  pub data Move : System → System → Type 0 where
    acts :
        (y : System) (k : ℕ) (d : LockClient) (s : Step (y.clients k) d)
        → is_answer s ≡ false
        → Move y (becomes y k y.server d)
    calls :
        (y : System) (k t : ℕ) (s : S) (r : Response)
        → (y.clients k).threads t ≡ calling
        → AcquireCall y k s r
        → Move y (becomes y k s (called (y.clients k) t r))
    calls_again :
        (y : System) (k t : ℕ) (s : S) (r : Response)
        → (y.clients k).threads t ≡ recalling
        → AcquireCall y k s r
        → Move y (becomes y k s (recalled (y.clients k) t r))
    gives_back :
        (y : System) (k t : ℕ) (s : S) (r : Response)
        → (y.clients k).threads t ≡ giving_back
        → ReleaseCall y k s r
        → Move y (becomes y k s (given_back (y.clients k) t r))

  -- Whether `acquireAndMaybeRetry` goes on as meant: its first call is answered OK or RETRY, its second
  -- call OK.
  unfoldable pub works : {y z : System} → Move y z → Bool
  works (Move.acts y k d s a) = true
  works (Move.calls y k t s r p a) = not (is_failed r)
  works (Move.calls_again y k t s r p a) = is_ok r
  works (Move.gives_back y k t s r p a) = true

  -- The lock that a client has is locked at the server, and no other client has it.
  pub record IsExclusive (y : System) : Type 0 where
    pub owners : (k : ℕ) → IsOwned (y.clients k)
    pub at_server : (k : ℕ) → has (y.clients k) ≡ true → service.locked y.server lid ≡ true
    pub single : (k j : ℕ) → has (y.clients k) ≡ true → has (y.clients j) ≡ true → k ≡ j

  module _ (y : System) (k : ℕ) (s : S) (d : LockClient) (x : IsExclusive y) (o : IsOwned d) where
    owners_after : (j : ℕ) → IsOwned (client_at y.clients k d j)
    owners_after j = elim (Bool-cases (nat_eq k j)) [
      | inl e ↦ subst (λ b. IsOwned (if b then d else y.clients j)) (sym e) o
      | inr e ↦ subst (λ b. IsOwned (if b then d else y.clients j)) (sym e) (x.owners j)
    ]

    -- The client gets nothing, and what is locked stays locked.
    becomes_less :
        (has d ≡ true → has (y.clients k) ≡ true)
        → (service.locked y.server lid ≡ true → service.locked s lid ≡ true)
        → IsExclusive (becomes y k s d)
    becomes_less less up =
        let had : (j : ℕ) → has (client_at y.clients k d j) ≡ true → has (y.clients j) ≡ true =
          λ j h. had_before less j h in
        record {
          owners = owners_after;
          at_server = λ j h. up (x.at_server j (had j h));
          single = λ i j h g. x.single i j (had i h) (had j g);
        }
      where
        had_before :
            (has d ≡ true → has (y.clients k) ≡ true)
            → (j : ℕ) → has (client_at y.clients k d j) ≡ true
            → has (y.clients j) ≡ true
        had_before less j h = elim (Bool-cases (nat_eq k j)) [
          | inl e ↦
              subst (λ i. has (y.clients i) ≡ true) (nat_of k j e)
                (less (subst (λ b. has (if b then d else y.clients j) ≡ true) e h))
          | inr e ↦ subst (λ b. has (if b then d else y.clients j) ≡ true) e h
        ]

    -- No other client has the lock.
    becomes_only :
        ((j : ℕ) → k ≢ j → has (y.clients j) ≡ false)
        → (has d ≡ true → service.locked s lid ≡ true)
        → IsExclusive (becomes y k s d)
    becomes_only none_else up = record {
      owners = owners_after;
      at_server = λ j h. up (only none_else j h).1;
      single = λ i j h g. sym (only none_else i h).0 ∙ (only none_else j g).0;
    }
      where
        only :
            ((j : ℕ) → k ≢ j → has (y.clients j) ≡ false)
            → (j : ℕ) → has (client_at y.clients k d j) ≡ true
            → (k ≡ j) × (has d ≡ true)
        only none_else j h = elim (Bool-cases (nat_eq k j)) [
          | inl e ↦ (nat_of k j e, subst (λ b. has (if b then d else y.clients j) ≡ true) e h)
          | inr e ↦
              let g : has (y.clients j) ≡ true =
                subst (λ b. has (if b then d else y.clients j) ≡ true) e h in
              let f : has (y.clients j) ≡ false = none_else j (ne_of k j e) in ground (arith, g, f)
        ]

  -- Before a grant no client has the lock.
  nobody_had :
      (y : System) (k : ℕ)
      → IsExclusive y
      → (asked y k).1 ≡ true
      → (j : ℕ) → k ≢ j
      → has (y.clients j) ≡ false
  nobody_had y k x g j n =
      not_has (y.clients j) (service.locked y.server lid) (x.at_server j)
        (service.acquire-granted y.server lid (request k) g).0

  others_lack :
      (y : System) (k j : ℕ)
      → IsExclusive y
      → has (y.clients k) ≡ true
      → k ≢ j
      → has (y.clients j) ≡ false
  others_lack y k j x h n = elim (Bool-cases (has (y.clients j))) [
    | inl g ↦ absurd (n (x.single k j h g))
    | inr g ↦ g
  ]

  called-IsExclusive :
      (y : System) (k t : ℕ) (s : S) (r : Response)
      → (y.clients k).threads t ≡ calling
      → AcquireCall y k s r
      → is_failed r ≡ false
      → IsExclusive y
      → IsExclusive (becomes y k s (called (y.clients k) t r))
  called-IsExclusive y k t s r p (AcquireCall.grants g) w x =
      becomes_only y k (asked y k).0 (called (y.clients k) t ok) x
        (Step-IsOwned (Step.is_granted (y.clients k) t p) (x.owners k)) (nobody_had y k x g)
        (λ h. (service.acquire-granted y.server lid (request k) g).1)
  called-IsExclusive y k t s r p (AcquireCall.refuses ok g n) w x = absurd (n refl)
  called-IsExclusive y k t s r p (AcquireCall.refuses retry g n) w x =
      becomes_less y k (asked y k).0 (called (y.clients k) t retry) x
        (Step-IsOwned (Step.is_put_off (y.clients k) t p) (x.owners k))
        (put_off-has (y.clients k) t) (λ l. service.acquire-refused y.server lid (request k) g ∙ l)
  called-IsExclusive y k t s r p (AcquireCall.refuses failed g n) w x = absurd (cc)
  called-IsExclusive y k t s r p AcquireCall.loses_answer w x = absurd (cc)
  called-IsExclusive y k t s r p AcquireCall.loses_request w x = absurd (cc)

  recalled-IsExclusive :
      (y : System) (k t : ℕ) (s : S) (r : Response)
      → (y.clients k).threads t ≡ recalling
      → AcquireCall y k s r
      → is_ok r ≡ true
      → IsExclusive y
      → IsExclusive (becomes y k s (recalled (y.clients k) t r))
  recalled-IsExclusive y k t s r p (AcquireCall.grants g) w x =
      becomes_only y k (asked y k).0 (recalled (y.clients k) t ok) x
        (Step-IsOwned (Step.is_granted_again (y.clients k) t p) (x.owners k)) (nobody_had y k x g)
        (λ h. (service.acquire-granted y.server lid (request k) g).1)
  recalled-IsExclusive y k t s r p (AcquireCall.refuses ok g n) w x = absurd (n refl)
  recalled-IsExclusive y k t s r p (AcquireCall.refuses retry g n) w x = absurd (cc)
  recalled-IsExclusive y k t s r p (AcquireCall.refuses failed g n) w x = absurd (cc)
  recalled-IsExclusive y k t s r p AcquireCall.loses_answer w x = absurd (cc)
  recalled-IsExclusive y k t s r p AcquireCall.loses_request w x = absurd (cc)

  given_back-IsExclusive :
      (y : System) (k t : ℕ) (s : S) (r : Response)
      → (y.clients k).threads t ≡ giving_back
      → IsExclusive y
      → IsExclusive (becomes y k s (given_back (y.clients k) t r))
  given_back-IsExclusive y k t s r p x =
      becomes_only y k s (given_back (y.clients k) t r) x
        (Step-IsOwned (Step.is_given_back (y.clients k) t r p) (x.owners k))
        (λ j n. others_lack y k j x (giving_has (y.clients k) t (x.owners k) p) n)
        (λ h. absurd (gave_up (y.clients k) t r (x.owners k) p h))

  pub move-IsExclusive :
      {y z : System} (m : Move y z) → works m ≡ true → IsExclusive y → IsExclusive z
  unfolding works
  move-IsExclusive (Move.acts y k d s a) w x =
      becomes_less y k y.server d x (Step-IsOwned s (x.owners k)) (Step-has s a (x.owners k))
        (λ l. l)
  move-IsExclusive (Move.calls y k t s r p a) w x =
      called-IsExclusive y k t s r p a (ground (arith, w)) x
  move-IsExclusive (Move.calls_again y k t s r p a) w x = recalled-IsExclusive y k t s r p a w x
  move-IsExclusive (Move.gives_back y k t s r p a) w x = given_back-IsExclusive y k t s r p x

  -- What the system comes to from a state of the server, with clients that just started.
  pub data Runs (start : S) : System → Type 0 where
    begins : Runs start (record { server = start; clients = λ k. lock_client_cache })
    moves : (y z : System) → Runs start y → Move y z → Runs start z

  -- Whether all steps so far went as `acquireAndMaybeRetry` means them to.
  unfoldable pub all_work : {start : S} {y : System} → Runs start y → Bool
  unfolding works
  all_work Runs.begins = true
  all_work (Runs.moves y z r m) = all_work r && works m

  pub Runs-IsExclusive :
      {start : S} {y : System} (r : Runs start y) → all_work r ≡ true → IsExclusive y
  unfolding all_work
  Runs-IsExclusive Runs.begins w = record {
    owners = λ k t. tt;
    at_server = λ k h. absurd (cc);
    single = λ k j h g. absurd (cc);
  }
  Runs-IsExclusive (Runs.moves y z r m) w =
      move-IsExclusive m (ground (arith, w)) (Runs-IsExclusive r (ground (arith, w)))

  -- Over any lock server that grants a lock only while it is free, at most one thread of all threads of
  -- all clients has the lock, and then the server holds it as locked. The condition is that every first
  -- call of `acquire` so far was answered OK or RETRY and every second call OK; calls of `release` may
  -- fail. A call is executed and answered in one step.
  pub mutual_exclusion :
      (start : S) (y : System) (k j t u : ℕ) (r : Runs start y)
      → all_work r ≡ true
      → (y.clients k).threads t ≡ holding
      → (y.clients j).threads u ≡ holding
      → (k ≡ j) × (t ≡ u) × (service.locked y.server lid ≡ true)
  mutual_exclusion start y k j t u r w e f =
      let x = Runs-IsExclusive r w in
      let a = holding_has (y.clients k) t (x.owners k) e in
      let b = holding_has (y.clients j) u (x.owners j) f in
      let n = x.single k j a b in
      let g = subst (λ i. (y.clients i).threads u ≡ holding) (sym n) f in
      (
        n,
        sym (holding_state (y.clients k) t (x.owners k) e).1
            ∙ (holding_state (y.clients k) u (x.owners k) g).1,
        x.at_server k a,
      )
