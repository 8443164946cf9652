-- ===== src/Rpc/Client/Outstanding.antt =====
-- What a request of the RPC client (rpc.cc) tells the server: which calls need no reply any more.
use ds.Common.{
  ℕ, ◌+◌, ◌%◌, ◌^◌, ◌≤◌, ◌<◌, ◌≡◌, refl, ap, sym, ◌∙◌, subst, Bool, true, false, not, ◌||◌, List,
  [], ◌∷◌, Option, none, some, Map, Bytes, lookup, insert, erase, nat_eq, nat_Eq, if◌then◌else◌,
  arith, Bool-cases, inl, inr, lookup-insert, lookup-erase,
}
use ds.Rpc.Client.{
  Rpcc, rpcc, Caller, new_caller, begin_call, got_pdu, end_call, bound, cancel, cancel_calls,
  found_reply, take_reply, Begun, sends, update_xid_rep, front,
}
use ds.Rpc.Client.Done.{done, has, ascends, update_xid_rep-ascends, update_xid_rep-done}

-- A call that waits for its reply.
abbrev pub pending : Option Caller → Bool
pending none = false
pending (some ca) = not ca.done

abbrev filled : List ℕ → Bool
filled [] = false
filled (f ∷ w) = true

-- The numbers that are done were given out, and no call that waits has one of them.
pub record IsSound (c : Rpcc) : Type 0 where
  pub window : ascends 0 c.xid_rep_window ≡ true
  pub not_empty : filled c.xid_rep_window ≡ true
  pub given : (n : ℕ) → done n c.xid_rep_window ≡ true → n < c.xid
  pub waiting : (n : ℕ) → pending (lookup n c.calls) ≡ true → n < c.xid
  pub undone : (n : ℕ) → pending (lookup n c.calls) ≡ true → done n c.xid_rep_window ≡ false

update_done :
    (n xid : ℕ) (w : List ℕ)
    → xid < 2 ^ 32
    → ascends 0 w ≡ true
    → filled w ≡ true
    → done n (update_xid_rep xid w) ≡ (done n w || nat_eq n xid)
update_done n xid [] b h k = absurd (cc)
update_done n xid (f ∷ w) b h k = update_xid_rep-done n xid f w b h

-- A list with a number that is done is not empty.
done_filled : (n : ℕ) (w : List ℕ) → done n w ≡ true → filled w ≡ true
done_filled n [] h = cc
done_filled n (f ∷ w) h = refl

update_filled :
    (xid : ℕ) (w : List ℕ)
    → xid < 2 ^ 32
    → ascends 0 w ≡ true
    → filled w ≡ true
    → filled (update_xid_rep xid w) ≡ true
update_filled xid w b h k =
    done_filled xid (update_xid_rep xid w) (ground (arith, update_done xid xid w b h k))

-- A call of the window's update, with calls of which none that waits has the number.
updated-IsSound :
    (c : Rpcc) (xid : ℕ) (calls : Map ℕ Caller)
    → xid < c.xid
    → c.xid < 2 ^ 32
    → IsSound c
    → ((n : ℕ) → pending (lookup n calls) ≡ true → pending (lookup n c.calls) ≡ true)
    → pending (lookup xid calls) ≡ false
    → IsSound (record c { calls = calls; xid_rep_window = update_xid_rep xid c.xid_rep_window })
updated-IsSound c xid calls b m s less out =
    let u = λ (n : ℕ). update_done n xid c.xid_rep_window (omega arith) s.window s.not_empty in
    record {
      window = update_xid_rep-ascends xid c.xid_rep_window (omega arith) s.window;
      not_empty = update_filled xid c.xid_rep_window (omega arith) s.window s.not_empty;
      given = λ n h. ground (arith, u n, s.given n);
      waiting = λ n h. s.waiting n (less n h);
      undone = λ n h.
          let g = s.undone n (less n h) in
          elim (Bool-cases (nat_eq n xid)) [
            | inl e ↦
                let same : n ≡ xid = ground arith in
                let o : pending (lookup n calls) ≡ false =
                  subst (λ m. pending (lookup m calls) ≡ false) (sym same) out in
                ground (arith, h, o)
            | inr e ↦ u n ∙ ground (arith, g, e)
          ];
    }

pending-insert :
    (xid : ℕ) (ca : Caller) (calls : Map ℕ Caller) (n : ℕ)
    → ca.done ≡ true
    → pending (lookup n (insert xid ca calls))
      ≡ (if nat_eq xid n then false else pending (lookup n calls))
pending-insert xid ca calls n h = ground (arith, lookup-insert {K = ℕ} xid n ca calls, h)

take_reply_done : (ca : Caller) (ret : ℕ) (body : Bytes) → (take_reply ca ret body).done ≡ true
take_reply_done ca ret body = elim (Bool-cases ca.done) [
  | inl h ↦ simp h refl
  | inr h ↦ simp h refl
]

found_reply-IsSound :
    (c : Rpcc) (xid ret : ℕ) (body : Bytes) (o : Option Caller)
    → lookup xid c.calls ≡ o
    → xid < c.xid
    → c.xid < 2 ^ 32
    → IsSound c
    → IsSound (
        found_reply
          (record c { xid_rep_window = update_xid_rep xid c.xid_rep_window })
          xid
          ret
          body
          o)
found_reply-IsSound c xid ret body none e b m s =
    updated-IsSound c xid c.calls b m s (λ n h. h) (ap pending e)
found_reply-IsSound c xid ret body (some ca) e b m s =
    let new = take_reply ca ret body in
    let d = take_reply_done ca ret body in
    updated-IsSound c xid (insert xid new c.calls) b m s
      (λ n h. ground (arith, pending-insert xid new c.calls n d, h))
      (ground (arith, pending-insert xid new c.calls xid d))

pub got_pdu-IsSound :
    (c : Rpcc) (xid ret : ℕ) (body : Bytes)
    → xid < c.xid
    → c.xid < 2 ^ 32
    → IsSound c
    → IsSound (got_pdu c xid ret body)
unfolding got_pdu
got_pdu-IsSound c xid ret body b m s =
    found_reply-IsSound c xid ret body (lookup xid c.calls) refl b m s

pub end_call-IsSound :
    (c : Rpcc) (xid : ℕ) → xid < c.xid → c.xid < 2 ^ 32 → IsSound c → IsSound (end_call c xid).0
unfolding end_call
end_call-IsSound c xid b m s =
    updated-IsSound c xid (erase xid c.calls) b m s
      (λ n h. ground (arith, lookup-erase {K = ℕ} xid n c.calls, h))
      (ground (arith, lookup-erase {K = ℕ} xid xid c.calls))

cancelled : (calls : Map ℕ Caller) (n : ℕ) → pending (lookup n (cancel_calls calls)) ≡ false
unfolding cancel_calls lookup
cancelled [] n = refl
cancelled ((xid, ca) ∷ rest) n = ground (arith, cancelled rest n)

pub cancel-IsSound : (c : Rpcc) → IsSound c → IsSound (cancel c)
unfolding cancel
cancel-IsSound c s = record {
  window = s.window;
  not_empty = s.not_empty;
  given = s.given;
  waiting = λ n h. ground (arith, h, cancelled c.calls n);
  undone = λ n h. ground (arith, h, cancelled c.calls n);
}

-- What a new call leaves, when it is neither refused for the binding nor cancelled.
started : Rpcc → Rpcc
started c = record c { xid = (c.xid + 1) % 2 ^ 32; calls = insert c.xid new_caller c.calls }

started-IsSound : (c : Rpcc) → c.xid + 1 < 2 ^ 32 → IsSound c → IsSound (started c)
unfolding started
started-IsSound c m s = record {
  window = s.window;
  not_empty = s.not_empty;
  given = λ n h. ground (arith, s.given n h);
  waiting = λ n h. ground (arith, lookup-insert {K = ℕ} c.xid n new_caller c.calls, s.waiting n);
  undone = λ n h.
      ground (arith, lookup-insert {K = ℕ} c.xid n new_caller c.calls, s.undone n, s.given n);
}

IsSoundAfter : Rpcc × Begun → Type 0
IsSoundAfter r = IsSound r.0

if_both :
    (P : Rpcc × Begun → Type 0) (b : Bool) (x y : Rpcc × Begun) → P x → P y → P (if b then x else y)
if_both P true x y p q = p
if_both P false x y p q = q

pub begin_call-IsSound :
    (c : Rpcc) (proc : ℕ) → c.xid + 1 < 2 ^ 32 → IsSound c → IsSound (begin_call c proc).0
unfolding begin_call started IsSoundAfter
begin_call-IsSound c proc m s =
    if_both IsSoundAfter _ (c, Begun.bind_failure) _ s
      (if_both IsSoundAfter c.destroy_wait (c, Begun.cancelled) (started c, sends _) s
        (started-IsSound c m s))

-- What happens to a client: a call begins, a reply to a call that was sent comes in, a call ends, with
-- its reply or without, `bind` returns, or the calls are cancelled.
pub data Happens : Rpcc → Rpcc → Type 0 where
  begins : (c : Rpcc) (proc : ℕ) → c.xid + 1 < 2 ^ 32 → Happens c (begin_call c proc).0
  replied :
      (c : Rpcc) (xid ret : ℕ) (body : Bytes)
      → xid < c.xid
      → c.xid < 2 ^ 32
      → Happens c (got_pdu c xid ret body)
  ends : (c : Rpcc) (xid : ℕ) → xid < c.xid → c.xid < 2 ^ 32 → Happens c (end_call c xid).0
  is_bound : (c : Rpcc) (srv_nonce : ℕ) → Happens c (bound c srv_nonce)
  cancels : (c : Rpcc) → Happens c (cancel c)

pub data Reaches (clt_nonce : ℕ) : Rpcc → Type 0 where
  starts : Reaches clt_nonce (rpcc clt_nonce)
  goes_on : (c d : Rpcc) → Reaches clt_nonce c → Happens c d → Reaches clt_nonce d

Happens-IsSound : {c d : Rpcc} → Happens c d → IsSound c → IsSound d
unfolding bound
Happens-IsSound (Happens.begins c proc m) s = begin_call-IsSound c proc m s
Happens-IsSound (Happens.replied c xid ret body b m) s = got_pdu-IsSound c xid ret body b m s
Happens-IsSound (Happens.ends c xid b m) s = end_call-IsSound c xid b m s
Happens-IsSound (Happens.is_bound c n) s = record {
  window = s.window;
  not_empty = s.not_empty;
  given = s.given;
  waiting = s.waiting;
  undone = s.undone;
}
Happens-IsSound (Happens.cancels c) s = cancel-IsSound c s

rpcc-IsSound : (clt_nonce : ℕ) → IsSound (rpcc clt_nonce)
unfolding ascends has lookup
rpcc-IsSound clt_nonce = record {
  window = ground arith;
  not_empty = refl;
  given = λ n h. ground arith;
  waiting = λ n h. ground arith;
  undone = λ n h. ground arith;
}

Reaches-IsSound : {clt_nonce : ℕ} {c : Rpcc} → Reaches clt_nonce c → IsSound c
Reaches-IsSound {clt_nonce} (Reaches.starts) = rpcc-IsSound clt_nonce
Reaches-IsSound (Reaches.goes_on c d r h) = Happens-IsSound h (Reaches-IsSound r)

done_front : (n : ℕ) (w : List ℕ) → filled w ≡ true → n ≤ front w → done n w ≡ true
done_front n [] f h = absurd (cc)
done_front n (g ∷ w) f h = ground arith

-- While fewer than 2^32 calls are made, and replies come for numbers that were given out only, no call that waits for its reply has a number up to the one
-- that a request carries as `xid_rep`: the server may forget what it keeps for those numbers.
pub xid_rep_lem :
    (clt_nonce : ℕ) (c : Rpcc) (n : ℕ)
    → Reaches clt_nonce c
    → pending (lookup n c.calls) ≡ true
    → front c.xid_rep_window < n
xid_rep_lem clt_nonce c n r h =
    let s = Reaches-IsSound r in
    ground (arith, s.undone n h, done_front n c.xid_rep_window s.not_empty)
