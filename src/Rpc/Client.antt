-- ===== src/Rpc/Client.antt =====
-- The RPC client (rpc.cc, class rpcc) between its holds of the mutex `m_`: its calls, the replies, and the
-- window of the numbers that are done with. The thread of a call, its time-outs and its connection are
-- left out, and with them what it sends again.
pub mod Done
pub mod Outstanding
use ds.Common.{
  ℕ, zero, suc, ◌+◌, ◌%◌, ◌^◌, ◌≡◌, Bool, true, false, not, ◌&&◌, ◌||◌, List, [], ◌∷◌, ◌++◌, Option,
  none, some, Map, insert, erase, lookup, map, Bytes, nat_eq, nat_Eq, leb, ltb, if◌then◌else◌,
}

-- The part of `rpcc::caller` that calls share: an integer that a call returns, or none so far.
pub data Intret : Type 0 where
  unset : Intret
  returned : ℕ → Intret
  cancel_failure : Intret

pub record Caller : Type 0 where
  pub done : Bool
  pub intret : Intret
  pub un : Bytes

pub record Rpcc : Type 0 where
  pub bind_done : Bool
  pub srv_nonce : ℕ
  pub clt_nonce : ℕ
  pub xid : ℕ
  pub calls : Map ℕ Caller
  pub xid_rep_window : List ℕ
  pub destroy_wait : Bool

-- `rpcc::rpcc`
abbrev pub rpcc : ℕ → Rpcc
rpcc clt_nonce = record {
  bind_done = false;
  srv_nonce = 0;
  clt_nonce = clt_nonce;
  xid = 1;
  calls = [];
  xid_rep_window = 0 ∷ [];
  destroy_wait = false;
}

-- `xid_rep_window_.insert` before the first number that is larger, or at the end.
unfoldable pub insert_xid : ℕ → List ℕ → List ℕ
insert_xid xid [] = xid ∷ []
insert_xid xid (it ∷ rest) = if ltb xid it then xid ∷ it ∷ rest else it ∷ insert_xid xid rest

-- `while (front() + 1 == *it) pop_front();` on what stands before `it`.
unfoldable pub pop_fronts : ℕ → List ℕ → List ℕ
pop_fronts it [] = []
pop_fronts it (front ∷ rest) =
    let popped = pop_fronts it rest in
    if nat_eq ((front + 1) % 2 ^ 32) it then popped else front ∷ rest

-- The loop at `compress`: what stands before `it`, and the numbers from `it` on.
unfoldable pub compress : List ℕ → List ℕ → List ℕ
unfolding pop_fronts
compress before [] = before
compress before (it ∷ rest) = compress (pop_fronts it before ++ (it ∷ [])) rest

-- `rpcc::update_xid_rep`; the window is never empty.
unfoldable pub update_xid_rep : ℕ → List ℕ → List ℕ
unfolding insert_xid compress
update_xid_rep xid [] = []
update_xid_rep xid (front ∷ rest) =
    if leb xid front then front ∷ rest else compress (front ∷ []) (insert_xid xid rest)

abbrev pub front : List ℕ → ℕ
front [] = 0
front (f ∷ w) = f

-- `req_header`
pub record ReqHeader : Type 0 where
  pub xid : ℕ
  pub proc : ℕ
  pub clt_nonce : ℕ
  pub srv_nonce : ℕ
  pub xid_rep : ℕ

-- What the first part of `call1` comes to: the header of the request, or a failure at once.
pub data Begun : Type 0 where
  sends : ReqHeader → Begun
  bind_failure cancelled : Begun

-- `rpc_const::bind`
abbrev pub bind_proc : ℕ
bind_proc = 1

abbrev pub new_caller : Caller
new_caller = record { done = false; intret = unset; un = [] }

-- `rpcc::call1` up to its first unlock.
unfoldable pub begin_call : Rpcc → ℕ → Rpcc × Begun
begin_call c proc =
    if (not (nat_eq proc bind_proc) && not c.bind_done) || (nat_eq proc bind_proc && c.bind_done)
    then (c, bind_failure)
    else if c.destroy_wait
    then (c, cancelled)
    else (
      record c { xid = (c.xid + 1) % 2 ^ 32; calls = insert c.xid new_caller c.calls },
      sends (record {
        xid = c.xid;
        proc = proc;
        clt_nonce = c.clt_nonce;
        srv_nonce = c.srv_nonce;
        xid_rep = front c.xid_rep_window;
      }),
    )

-- The caller after a reply: a call that is done keeps what it has.
abbrev pub take_reply : Caller → ℕ → Bytes → Caller
take_reply ca ret body =
    if ca.done then ca else record { done = true; intret = returned ret; un = body }

abbrev pub found_reply : Rpcc → ℕ → ℕ → Bytes → Option Caller → Rpcc
found_reply c xid ret body none = c
found_reply c xid ret body (some ca) = record c {
  calls = insert xid (take_reply ca ret body) c.calls;
}

-- `rpcc::got_pdu` for a reply with a header.
unfoldable pub got_pdu : Rpcc → ℕ → ℕ → Bytes → Rpcc
unfolding update_xid_rep
got_pdu c xid ret body =
    found_reply (record c { xid_rep_window = update_xid_rep xid c.xid_rep_window }) xid ret body
      (lookup xid c.calls)

-- What `call1` returns.
pub data CallRet : Type 0 where
  gives : Intret → CallRet
  timeout_failure : CallRet

abbrev pub call_ret : Option Caller → CallRet
call_ret none = timeout_failure
call_ret (some ca) = if ca.done then gives ca.intret else timeout_failure

-- The end of `call1`, with what it returns.
unfoldable pub end_call : Rpcc → ℕ → Rpcc × CallRet
unfolding update_xid_rep
end_call c xid = (
  record c { calls = erase xid c.calls; xid_rep_window = update_xid_rep xid c.xid_rep_window },
  call_ret (lookup xid c.calls),
)

-- `rpcc::bind` after its call returned.
unfoldable pub bound : Rpcc → ℕ → Rpcc
bound c srv_nonce = record c { bind_done = true; srv_nonce = srv_nonce }

-- `rpcc::cancel` up to its wait.
unfoldable pub cancel_calls : Map ℕ Caller → Map ℕ Caller
cancel_calls [] = []
cancel_calls ((xid, ca) ∷ rest) =
    (xid, record ca { done = true; intret = cancel_failure }) ∷ cancel_calls rest

unfoldable pub cancel : Rpcc → Rpcc
unfolding cancel_calls
cancel c = record c {
  calls = cancel_calls c.calls;
  destroy_wait = elim c.calls [ [] ↦ c.destroy_wait | _ ∷ _ ↦ true ];
}
