-- ===== src/Lock/Client/Having.antt =====
-- When a client has the lock of the server, used or not (lock_client_cache.cc): no step of its threads
-- but an answer of the server gets the lock.
use ds.Common.{
  ℕ, ◌≡◌, refl, sym, ap, ◌∙◌, subst, Bool, true, false, ◌&&◌, Option, none, some, nat_eq, nat_Eq,
  if◌then◌else◌, or_else, arith, Bool-cases, inl, inr,
}
use ds.Lock.Client.{
  LockState, none_state, free, locked, acquiring, releasing, LockInfo, no_info, Pc, outside,
  wait_free, wait_none, calling, wait_retry, recalling, granted, holding, giving_back, LockClient,
  info, at, goes, update_lock_state, queued, acquire_found, acquire_entry, acquire, take_free,
  take_none, called, check_retry, take_retry, recalled, settle, is_nil, is_free, revoke_handler,
  retry_handler,
}
use ds.Lock.Client.Threads.{Step, IsOwned, holding_state, owned}

-- Whether a step is the answer of a call.
abbrev pub is_answer : {c d : LockClient} → Step c d → Bool
is_answer (Step.acquires c t p) = false
is_answer (Step.takes_free c t p s) = false
is_answer (Step.takes_none c t p s) = false
is_answer (Step.is_granted c t p) = true
is_answer (Step.is_put_off c t p) = true
is_answer (Step.checks_retry c t p) = false
is_answer (Step.takes_retry c t p r) = false
is_answer (Step.is_granted_again c t p) = true
is_answer (Step.settles c t p) = false
is_answer (Step.releases c t p) = false
is_answer (Step.is_revoked c t p) = false
is_answer (Step.is_given_back c t r p) = true
is_answer (Step.is_ready c) = false

-- Whether the thread that the entry names has the lock while the state is ACQUIRING or RELEASING.
abbrev pub is_got : Pc → Bool
is_got granted = true
is_got giving_back = true
is_got _ = false

abbrev pub has_in : LockState → Pc → Bool
has_in none_state p = false
has_in free p = true
has_in locked p = true
has_in acquiring p = is_got p
has_in releasing p = is_got p

-- Whether a client has the lock of the server, used or not.
abbrev pub has : LockClient → Bool
has c = has_in (info c).state (c.threads (info c).thread_id)

stays_got :
    (c : LockClient) (t : ℕ) (p : Pc) (i : ℕ)
    → is_got p ≡ false
    → is_got (at c.threads t p i) ≡ true
    → is_got (c.threads i) ≡ true
stays_got c t p i n h = elim (Bool-cases (nat_eq t i)) [
  | inl e ↦
      let g : is_got p ≡ true = subst (λ b. is_got (if b then p else c.threads i) ≡ true) e h in
      ground (arith, g, n)
  | inr e ↦ subst (λ b. is_got (if b then p else c.threads i) ≡ true) e h
]

-- A thread that goes to a wait, or out, gets nothing.
pub stays :
    (c : LockClient) (t : ℕ) (p : Pc) (s : LockState) (i : ℕ)
    → is_got p ≡ false
    → has_in s (at c.threads t p i) ≡ true
    → has_in s (c.threads i) ≡ true
stays c t p none_state i n h = h
stays c t p free i n h = h
stays c t p locked i n h = h
stays c t p acquiring i n h = stays_got c t p i n h
stays c t p releasing i n h = stays_got c t p i n h

at_self : (threads : ℕ → Pc) (t : ℕ) (p : Pc) → at threads t p t ≡ p
at_self threads t p = ground arith

pub not_got :
    (c : LockClient) (t : ℕ) (p : Pc)
    → is_got p ≡ false
    → is_got (at c.threads t p t) ≡ true
    → false ≡ true
not_got c t p n h = sym n ∙ subst (λ q. is_got q ≡ true) (at_self c.threads t p) h

-- A step that is no answer gets nothing from the server.
acquire_found-has :
    (c : LockClient) (t : ℕ) (i : LockInfo) (s : LockState)
    → info c ≡ i
    → i.state ≡ s
    → has (acquire_found c t i s) ≡ true
    → has c ≡ true
unfolding acquire_found
acquire_found-has c t i none_state e f h = elim (Bool-cases i.waiting_to_acq) [
  | inl w ↦
      let g : has (goes c t wait_free (queued i t)) ≡ true =
        subst
          (λ b.
            has (
              if b
              then goes c t wait_free (queued i t)
              else goes c t calling (update_lock_state i t acquiring))
            ≡ true)
          w h in
      let k : false ≡ true =
        subst (λ s. has_in s (at c.threads t wait_free i.thread_id) ≡ true) f g in
      absurd (cc)
  | inr w ↦
      let g : has (goes c t calling (update_lock_state i t acquiring)) ≡ true =
        subst
          (λ b.
            has (
              if b
              then goes c t wait_free (queued i t)
              else goes c t calling (update_lock_state i t acquiring))
            ≡ true)
          w h in
      let k : false ≡ true = not_got c t calling refl g in absurd (cc)
]
acquire_found-has c t i free e f h =
    subst (λ j. has_in j.state (c.threads j.thread_id) ≡ true) (sym e) (simp f refl)
acquire_found-has c t i locked e f h =
    subst (λ j. has_in j.state (c.threads j.thread_id) ≡ true) (sym e) (simp f refl)
acquire_found-has c t i acquiring e f h =
    subst (λ j. has_in j.state (c.threads j.thread_id) ≡ true) (sym e)
      (stays c t wait_free i.state i.thread_id refl h)
acquire_found-has c t i releasing e f h =
    subst (λ j. has_in j.state (c.threads j.thread_id) ≡ true) (sym e)
      (elim (Bool-cases i.waiting_to_acq) [
        | inl w ↦
            let g : has (goes c t wait_free (queued i t)) ≡ true =
              subst
                (λ b.
                  has (
                    if b
                    then goes c t wait_free (queued i t)
                    else goes c t wait_none (record i { waiting_to_acq = true }))
                  ≡ true)
                w h in
            stays c t wait_free i.state i.thread_id refl g
        | inr w ↦
            let g : has (goes c t wait_none (record i { waiting_to_acq = true })) ≡ true =
              subst
                (λ b.
                  has (
                    if b
                    then goes c t wait_free (queued i t)
                    else goes c t wait_none (record i { waiting_to_acq = true }))
                  ≡ true)
                w h in
            stays c t wait_none i.state i.thread_id refl g
      ])

acquire_entry-has :
    (c : LockClient) (t : ℕ) (e : Option LockInfo)
    → c.entry ≡ e
    → has (acquire_entry c t e) ≡ true
    → has c ≡ true
unfolding acquire_entry
acquire_entry-has c t none e h = let k : false ≡ true = not_got c t calling refl h in absurd (cc)
acquire_entry-has c t (some i) e h = acquire_found-has c t i i.state (ap (or_else no_info) e) refl h

free_has : (c : LockClient) (s : LockState) → (info c).state ≡ s → is_free s ≡ true → has c ≡ true
free_has c free e h = simp e refl
free_has c none_state e h = absurd (cc)
free_has c locked e h = absurd (cc)
free_has c acquiring e h = absurd (cc)
free_has c releasing e h = absurd (cc)

pub holding_has : (c : LockClient) (t : ℕ) → IsOwned c → c.threads t ≡ holding → has c ≡ true
holding_has c t h e = simp ((holding_state c t h e).0) refl

revoke_handler-has : (c : LockClient) (t : ℕ) → has (revoke_handler c t) ≡ true → has c ≡ true
unfolding revoke_handler
revoke_handler-has c t h = elim (Bool-cases (is_free (info c).state)) [
  | inl f ↦ free_has c (info c).state refl f
  | inr f ↦
      let i = record (info c) { to_revoke = true } in
      let given =
        goes c t giving_back (record (update_lock_state i t releasing) { to_revoke = false }) in
      let g : has (goes c t outside i) ≡ true =
        subst (λ b. has (if b && is_nil i.wait_list then given else goes c t outside i) ≡ true) f
          h in
      stays c t outside (info c).state (info c).thread_id refl g
]

check_retry-has : (c : LockClient) (t : ℕ) → has (check_retry c t) ≡ true → has c ≡ true
unfolding check_retry
check_retry-has c t h = elim (Bool-cases (info c).to_retry) [
  | inl r ↦
      let g : has (goes c t recalling (record (info c) { to_retry = false })) ≡ true =
        subst
          (λ b.
            has (
              if b
              then goes c t recalling (record (info c) { to_retry = false })
              else goes c t wait_retry (record (info c) { waiting_to_retry = true }))
            ≡ true)
          r h in
      stays c t recalling (info c).state (info c).thread_id refl g
  | inr r ↦
      let g : has (goes c t wait_retry (record (info c) { waiting_to_retry = true })) ≡ true =
        subst
          (λ b.
            has (
              if b
              then goes c t recalling (record (info c) { to_retry = false })
              else goes c t wait_retry (record (info c) { waiting_to_retry = true }))
            ≡ true)
          r h in
      stays c t wait_retry (info c).state (info c).thread_id refl g
]

pub Step-has :
    {c d : LockClient} (s : Step c d)
    → is_answer s ≡ false
    → IsOwned c
    → has d ≡ true
    → has c ≡ true
unfolding acquire take_free take_none called take_retry recalled settle retry_handler
Step-has (Step.acquires c t p) a o h = acquire_entry-has c t c.entry refl h
Step-has (Step.takes_free c t p s) a o h = free_has c free s refl
Step-has (Step.takes_none c t p s) a o h =
    let k : false ≡ true = not_got c t calling refl h in absurd (cc)
Step-has (Step.is_granted c t p) a o h = absurd (cc)
Step-has (Step.is_put_off c t p) a o h = absurd (cc)
Step-has (Step.checks_retry c t p) a o h = check_retry-has c t h
Step-has (Step.takes_retry c t p r) a o h =
    stays c t recalling (info c).state (info c).thread_id refl h
Step-has (Step.is_granted_again c t p) a o h = absurd (cc)
Step-has (Step.settles c t p) a o h =
    let (s, i) = owned c t o granted acquiring p refl in simp (s, i, p) refl
Step-has (Step.releases c t p) a o h = holding_has c t o p
Step-has (Step.is_revoked c t p) a o h = revoke_handler-has c t h
Step-has (Step.is_given_back c t r p) a o h = absurd (cc)
Step-has (Step.is_ready c) a o h = h
