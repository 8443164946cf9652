-- ===== src/Paxos/Proposer.antt =====
-- The proposer (paxos.cc, `class proposer`): `setn`, `prepare`, `accept`, `decide`, `run` and the
-- breakpoints, over a network of acceptors. One run is modelled from its start to its end, with no
-- other proposer at work in between.
pub mod Rounds
pub mod Chosen
pub mod Fresh
use ds.Common.{
  ℕ, ◌+◌, ◌%◌, ◌≡◌, Bool, true, false, not, ◌||◌, List, [], ◌∷◌, ◌++◌, Option, none, some, Bytes,
  Map, Outcome, insert, erase, lookup, bytes_Eq, ltb, nat_eq, if◌then◌else◌,
}
use ds.Paxos.Proposal.{Prop, gt}
use ds.Paxos.Quorum.{majority}
use ds.Paxos.State.{Acceptor, u32}
use ds.Paxos.Acceptor.{
  Preparearg, Prepareres, Acceptarg, Decidearg, preparereq, acceptreq, decidereq, commit_wo,
}

-- What becomes of one RPC: its reply arrives, the request is lost (or the node cannot be bound), or
-- the request is handled and the reply is lost.
pub data Fate : Type 0 where
  answered lost unanswered : Fate

-- The running nodes by their addresses, and the fates of the RPCs to come.
pub record World : Type 0 where
  pub nodes : Map Bytes Acceptor
  pub fates : List Fate

abbrev pub next_fate : List Fate → Fate
next_fate [] = Fate.lost
next_fate (f ∷ fs) = f

abbrev pub later_fates : List Fate → List Fate
later_fates [] = []
later_fates (f ∷ fs) = fs

abbrev pub reply_of {ℓ} : {R : Type ℓ} → Fate → R → Option R
reply_of Fate.answered r = some r
reply_of Fate.lost r = none
reply_of Fate.unanswered r = none

-- A handled request: a handler that aborts takes its node down.
unfoldable pub handled :
    {R : Type 0}
    → Bytes
    → Fate
    → List Fate
    → Map Bytes Acceptor
    → Outcome (Acceptor × R)
    → World × Option R
handled node f fs ns (Outcome.ok (s, r)) =
    (record { nodes = insert node s ns; fates = fs }, reply_of f r)
handled node f fs ns Outcome.abort = (record { nodes = erase node ns; fates = fs }, none)

unfoldable pub sent :
    {R : Type 0}
    → (Acceptor → Outcome (Acceptor × R))
    → Bytes
    → World
    → Fate
    → Option Acceptor
    → World × Option R
sent h node w f none = (record w { fates = later_fates w.fates }, none)
sent h node w Fate.lost (some s) = (record w { fates = later_fates w.fates }, none)
sent h node w Fate.answered (some s) =
    handled node Fate.answered (later_fates w.fates) w.nodes (h s)
sent h node w Fate.unanswered (some s) =
    handled node Fate.unanswered (later_fates w.fates) w.nodes (h s)

-- `handle h(node); rpcc *cl = h.safebind(); if (cl) ret = cl->call(...)`
unfoldable pub call :
    {R : Type 0} → (Acceptor → Outcome (Acceptor × R)) → Bytes → World → World × Option R
unfolding sent handled
call h node w = sent h node w (next_fate w.fates) (lookup node w.nodes)

-- `class proposer`, without its mutex; `acc` is the acceptor at the address `me`.
pub record Proposer : Type 0 where
  pub me : Bytes
  pub break1 : Bool
  pub break2 : Bool
  pub stable : Bool
  pub my_n : Prop

-- `proposer::proposer`
unfoldable pub proposer : Bytes → Proposer
proposer me = record {
  me = me;
  break1 = false;
  break2 = false;
  stable = true;
  my_n = record { n = 0; m = me };
}

-- `acc->get_n_h().n`
unfoldable pub acc_n_h : Proposer → World → ℕ
acc_n_h p w = elim (lookup p.me w.nodes) [ none ↦ 0 | some s ↦ s.n_h.n ]

-- `proposer::setn`
unfoldable pub setn : Proposer → World → Proposer
setn p w =
    let a = (acc_n_h p w + 1) % u32 in
    let b = (p.my_n.n + 1) % u32 in
    record p { my_n = record { n = if ltb b a then a else b; m = p.my_n.m } }

-- `acc->commit(instance, v)`
unfoldable pub acc_commit : Proposer → ℕ → Bytes → World → World
acc_commit p i v w = elim (lookup p.me w.nodes) [
  | none ↦ w
  | some s ↦ record w { nodes = insert p.me (commit_wo s i v) w.nodes }
]

-- A reply before the handler has filled it in: the loop reads a field only where it was set.
abbrev pub no_reply : Prepareres
no_reply = record { oldinstance = false; accept = false; n_a = record { n = 0; m = [] }; v_a = [] }

-- `!inited || r.n_a > highest`
abbrev pub is_higher : Prop → Option Prop → Bool
is_higher n none = true
is_higher n (some h) = gt n h

-- What `prepare` has gathered: the nodes that accepted, the value, and the number it came with.
pub record Gathered : Type 0 where
  pub accepts : List Bytes
  pub v : Bytes
  pub highest : Option Prop

-- An accepting reply in the loop of `proposer::prepare`.
unfoldable pub gather : Gathered → Bytes → Prepareres → Gathered
gather g node r =
    if is_higher r.n_a g.highest
    then record { accepts = g.accepts ++ (node ∷ []); v = r.v_a; highest = some r.n_a }
    else record g { accepts = g.accepts ++ (node ∷ []) }

-- `proposer::prepare`; none where it returns false.
unfoldable pub prepare : Proposer → ℕ → List Bytes → Gathered → World → World × Option Gathered
prepare p i [] g w = (w, some g)
prepare p i (node ∷ nodes) g w =
    let (w', reply) =
      call (λ s. Outcome.ok (preparereq s (record { instance_ = i; n = p.my_n }) no_reply)) node
        w in
    elim reply [
      | none ↦ prepare p i nodes g w'
      | some r ↦ elim r.oldinstance [
        | true ↦ (acc_commit p i r.v_a w', none)
        | false ↦ elim r.accept [
          | true ↦ prepare p i nodes (gather g node r) w'
          | false ↦ prepare p i nodes g w'
        ]
      ]
    ]

-- `if (ret == OK && r) accepts.push_back(node)`
abbrev pub push_if : Option Bool → Bytes → List Bytes → List Bytes
push_if (some true) node accepts = accepts ++ (node ∷ [])
push_if (some false) node accepts = accepts
push_if none node accepts = accepts

-- `proposer::accept`
unfoldable pub accept : Proposer → ℕ → List Bytes → Bytes → List Bytes → World → World × List Bytes
accept p i [] v accepts w = (w, accepts)
accept p i (node ∷ nodes) v accepts w =
    let (w', reply) =
      call (λ s. Outcome.ok (acceptreq s (record { instance_ = i; n = p.my_n; v = v }))) node w in
    accept p i nodes v (push_if reply node accepts) w'

abbrev pub with_unit : Outcome Acceptor → Outcome (Acceptor × Unit {0})
with_unit (Outcome.ok s) = Outcome.ok (s, tt)
with_unit Outcome.abort = Outcome.abort

-- `proposer::decide`
unfoldable pub decide : ℕ → List Bytes → Bytes → World → World
decide i [] v w = w
decide i (node ∷ accepts) v w =
    decide i accepts v
      (call (λ s. with_unit (decidereq s (record { instance_ = i; v = v }))) node w).0

-- How a run ends: it returns, or a breakpoint stops the process.
pub data Ran : Type 0 where
  returned : Bool → Ran
  exited : Ran

-- `run` from the accept phase on.
unfoldable pub run_accept : Proposer → ℕ → List Bytes → List Bytes → Bytes → World → World × Ran
run_accept p i cur_nodes nodes v w =
    let (w', accepts) = accept p i nodes v [] w in
    if majority cur_nodes accepts
    then if p.break2
      then (record w' { nodes = erase p.me w'.nodes }, Ran.exited)
      else (decide i accepts v w', Ran.returned true)
    else (w', Ran.returned false)

-- `if (v.size() == 0) v = newv;`
abbrev pub or_new : Bytes → Bytes → Bytes
or_new [] newv = newv
or_new (c ∷ v) newv = c ∷ v

unfoldable pub run_prepared :
    Proposer → ℕ → List Bytes → Bytes → World → Option Gathered → World × Ran
run_prepared p i cur_nodes newv w none = (w, Ran.returned false)
run_prepared p i cur_nodes newv w (some g) =
    if majority cur_nodes g.accepts
    then if p.break1
      then (record w { nodes = erase p.me w.nodes }, Ran.exited)
      else run_accept p i cur_nodes g.accepts (or_new g.v newv) w
    else (w, Ran.returned false)

abbrev pub no_accepts : Gathered
no_accepts = record { accepts = []; v = []; highest = none }

-- `proposer::run`: the proposer afterwards, the world, and how it ended.
unfoldable pub run : Proposer → ℕ → List Bytes → Bytes → World → Proposer × World × Ran
unfolding run_prepared run_accept
run p i cur_nodes newv w =
    if not p.stable
    then (p, w, Ran.returned false)
    else let q = record (setn p w) { stable = false } in
      let (w1, got) = prepare q i cur_nodes no_accepts w in
      let (w2, r) = run_prepared q i cur_nodes newv w1 got in (record q { stable = true }, w2, r)

-- `proposer::breakpoint`
unfoldable pub breakpoint : ℕ → Proposer → Proposer
breakpoint b p =
    if nat_eq b 3
    then record p { break1 = true }
    else if nat_eq b 4
    then record p { break2 = true }
    else p

-- `proposer::isrunning`
unfoldable pub isrunning : Proposer → Bool
isrunning p = not p.stable
