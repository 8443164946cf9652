-- ===== src/Paxos/Acceptor.antt =====
-- The acceptor's handlers (paxos.cc, `class acceptor`): `preparereq`, `acceptreq`, `decidereq`,
-- `commit_wo`, `commit` and the constructor.
pub mod Promises
pub mod Same
pub mod Durable
use ds.Common.{
  ℕ, ◌+◌, ◌%◌, Bool, true, false, not, ◌&&◌, List, [], ◌∷◌, Bytes, Outcome, insert, touch, nat_Eq,
  bytes_Eq, ◌==◌, leb, ltb, nat_eq, if◌then◌else◌,
}
use ds.Paxos.Proposal.{Prop, gt, ge}
use ds.Paxos.State.{Acceptor, u32, value, blank}
use ds.Paxos.Log.{Read, loginstance, logprop, logaccept, logread}

-- `paxos_protocol::preparearg`
pub record Preparearg : Type 0 where
  pub instance_ : ℕ
  pub n : Prop

-- `paxos_protocol::prepareres`
pub record Prepareres : Type 0 where
  pub oldinstance : Bool
  pub accept : Bool
  pub n_a : Prop
  pub v_a : Bytes

-- `paxos_protocol::acceptarg`
pub record Acceptarg : Type 0 where
  pub instance_ : ℕ
  pub n : Prop
  pub v : Bytes

-- `paxos_protocol::decidearg`
pub record Decidearg : Type 0 where
  pub instance_ : ℕ
  pub v : Bytes

-- `acceptor::preparereq`: the reply is filled in from what it holds before.
unfoldable pub preparereq : Acceptor → Preparearg → Prepareres → Acceptor × Prepareres
preparereq s a r =
    if leb a.instance_ s.instance_h
    then (
      record s { values = touch [] a.instance_ s.values },
      record r { accept = false; oldinstance = true; v_a = value s a.instance_ },
    )
    else if gt a.n s.n_h
    then (
      record (logprop a.n s) { n_h = a.n },
      record r { accept = true; oldinstance = false; n_a = s.n_a; v_a = s.v_a },
    )
    else (s, record r { accept = false; oldinstance = false })

-- `acceptor::acceptreq`
unfoldable pub acceptreq : Acceptor → Acceptarg → Acceptor × Bool
acceptreq s a =
    if ge a.n s.n_h
    then (record (logaccept a.n a.v s) { n_a = a.n; v_a = a.v }, true)
    else (s, false)

-- `acceptor::commit_wo`
unfoldable pub commit_wo : Acceptor → ℕ → Bytes → Acceptor
commit_wo s i v =
    if ltb s.instance_h i
    then record (loginstance i v s) {
      values = insert i v s.values;
      instance_h = i;
      n_h = record { n = 0; m = s.me };
      n_a = record { n = 0; m = s.me };
      v_a = [];
      upcalls = if s.cfg then (i, v) ∷ s.upcalls else s.upcalls;
    }
    else s

-- `acceptor::decidereq`
unfoldable pub decidereq : Acceptor → Decidearg → Outcome Acceptor
decidereq s a =
    if nat_eq a.instance_ ((s.instance_h + 1) % u32)
    then (if s.v_a == a.v then Outcome.ok (commit_wo s a.instance_ s.v_a) else Outcome.abort)
    else if leb a.instance_ s.instance_h
    then Outcome.ok s
    else Outcome.abort

-- The end of `acceptor::acceptor`: the first node logs the first view, if the log held no instance.
unfoldable pub found : Bool → Bytes → Acceptor → Acceptor
found first v s =
    if nat_eq s.instance_h 0 && first
    then record (loginstance 1 v s) { values = insert 1 v s.values; instance_h = 1 }
    else s

unfoldable pub found_read : Bool → Bytes → Read → Read
found_read first v (Read.ok s) = Read.ok (found first v s)
found_read first v r = r

-- `acceptor::acceptor`: the fields, the log, and the first view.
unfoldable pub acceptor : Bool → Bool → Bytes → Bytes → Bytes → Read
unfolding found_read
acceptor cfg first me v file = found_read first v (logread (blank cfg me file))

-- The calls that change an acceptor: the three RPCs, and `acceptor::commit` by its own proposer.
pub data Request : Type 0 where
  prepare : Preparearg → Prepareres → Request
  accept : Acceptarg → Request
  decide : Decidearg → Request
  commit : ℕ → Bytes → Request

unfoldable pub serve : Acceptor → Request → Outcome Acceptor
serve s (prepare a r) = Outcome.ok (preparereq s a r).0
serve s (accept a) = Outcome.ok (acceptreq s a).0
serve s (decide a) = decidereq s a
serve s (commit i v) = Outcome.ok (commit_wo s i v)

-- Requests one after the other; a failed `VERIFY` stops the process.
unfoldable pub serve_all : Acceptor → List Request → Outcome Acceptor
serve_all s [] = Outcome.ok s
serve_all s (q ∷ qs) = elim (serve s q) [
  | Outcome.ok t ↦ serve_all t qs
  | Outcome.abort ↦ Outcome.abort
]
