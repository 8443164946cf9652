-- ===== src/Config/View.antt =====
-- The views of config.cc: the text of a view, the current view and its changes, and the heartbeats.
-- The members of `class config` that the leader election uses are in Config/Election.antt.
pub mod Text
pub mod Changes
pub mod Adding
pub mod Heartbeats
use ds.Common.{
  ℕ, zero, suc, ◌+◌, ◌%◌, ◌≡◌, refl, Bool, true, false, not, ◌&&◌, ◌||◌, List, [], ◌∷◌, ◌++◌,
  Option, none, some, Bytes, bytes_Eq, ◌==◌, bytes_lt, ltb, nat_eq, if◌then◌else◌, length,
  read_word, space, Outcome,
}
use ds.Paxos.State.{Acceptor, u32}
use ds.Paxos.State
use ds.Paxos.Quorum.{isamember}
use ds.Paxos.Proposer.{Proposer, World, Ran, run, isrunning}

-- `acc` is the acceptor of the node, whose values are the views by their numbers; `vc` says whether
-- an object to inform of changes is set. `deleted` lists the calls of `mgr.delete_handle` and
-- `changes` those of `vc->commit_change`, the latest first.
pub record Views : Type 0 where
  pub me : Bytes
  pub vc : Bool
  pub myvid : ℕ
  pub mems : List Bytes
  pub acc : Acceptor
  pub deleted : List Bytes
  pub changes : List ℕ

-- The loop of `config::members`; each round with fuel reads one word.
unfoldable pub read_members : ℕ → Bytes → List Bytes
read_members zero s = []
read_members (suc f) s = elim (read_word s) [ none ↦ [] | some (m, rest) ↦ m ∷ read_members f rest ]

-- `config::members`: a word takes at least one byte, so that the length is fuel enough.
unfoldable pub members : Bytes → List Bytes
unfolding read_members
members value = read_members (suc (length value)) value

-- `config::value`
unfoldable pub value : List Bytes → Bytes
value [] = []
value (m ∷ ms) = m ++ (space ∷ value ms)

-- `config::get_view_wo` and `config::get_view`
unfoldable pub get_view : Views → ℕ → List Bytes
get_view c instance_ = members (State.value c.acc instance_)

-- `config::reconstruct`
unfoldable pub reconstruct : Views → Views
reconstruct c =
    if ltb 0 c.acc.instance_h
    then record c { myvid = c.acc.instance_h; mems = get_view c c.acc.instance_h }
    else c

-- The loop of `config::paxos_commit`: the handles of the members that leave are deleted.
unfoldable pub delete_handles : Bytes → List Bytes → List Bytes → List Bytes → List Bytes
delete_handles me newmem [] deleted = deleted
delete_handles me newmem (m ∷ mems) deleted =
    delete_handles me newmem mems
      (if not (isamember m newmem) && not (me == m) then m ∷ deleted else deleted)

-- `config::paxos_commit`
unfoldable pub paxos_commit : Views → ℕ → Bytes → Views
unfolding delete_handles
paxos_commit c instance_ v =
    let newmem = members v in
    record c {
      deleted = delete_handles c.me newmem c.mems c.deleted;
      mems = newmem;
      myvid = instance_;
      changes = if c.vc then instance_ ∷ c.changes else c.changes;
    }

-- `config::ismember`
unfoldable pub ismember : Views → Bytes → ℕ → Bool
ismember c m vid = isamember m (get_view c vid)

-- `config::add`: none where the view is not the current one, otherwise the run of the proposer.
unfoldable pub add : Views → Proposer → World → Bytes → ℕ → Option (Proposer × World × Ran)
add c pro w new_m vid =
    if not (nat_eq vid c.myvid)
    then none
    else some (run pro ((c.myvid + 1) % u32) c.mems (value (c.mems ++ (new_m ∷ []))) w)

-- The loop of `config::remove_wo`.
unfoldable pub without : Bytes → List Bytes → List Bytes
without m [] = []
without m (x ∷ mems) = let rest = without m mems in if x == m then rest else x ∷ rest

-- `config::remove_wo`
unfoldable pub remove_wo : Views → Proposer → World → Bytes → Proposer × World × Ran
unfolding without
remove_wo c pro w m = run pro ((c.myvid + 1) % u32) c.mems (value (without m c.mems)) w

-- `config::heartbeat`: whether it returns OK, and the number of the view.
unfoldable pub heartbeat : Views → Proposer → ℕ → Outcome (Bool × ℕ)
heartbeat c pro vid =
    if nat_eq vid c.myvid
    then Outcome.ok (true, c.myvid)
    else if isrunning pro
    then if nat_eq vid ((c.myvid + 1) % u32) || nat_eq ((vid + 1) % u32) c.myvid
      then Outcome.ok (true, c.myvid)
      else Outcome.abort
    else Outcome.ok (false, c.myvid)

-- What a call of `config::doheartbeat` found out.
pub data Heartbeat : Type 0 where
  ok view_err failure : Heartbeat

-- The loop of `config::heartbeater` that finds the smallest address.
unfoldable pub smallest : Bytes → List Bytes → Bytes
smallest m [] = m
smallest m (x ∷ cmems) = smallest (if bytes_lt x m then x else m) cmems

abbrev pub is_ok : Heartbeat → Bool
is_ok Heartbeat.ok = true
is_ok Heartbeat.view_err = false
is_ok Heartbeat.failure = false

-- The loop of `config::heartbeater` that pings the others: the first of them that is not fine.
unfoldable pub ping_rest : (Bytes → Heartbeat) → Bytes → List Bytes → Option Bytes
ping_rest ping me [] = none
ping_rest ping me (x ∷ cmems) =
    let rest = ping_rest ping me cmems in
    if not (x == me) && not (is_ok (ping x)) then some x else rest

-- A round of `config::heartbeater`: the node that it removes. `ping` is what `doheartbeat` returns
-- for a node, and `vid` the number of the view when the pings are over.
unfoldable pub heartbeater : Views → (Bytes → Heartbeat) → ℕ → Option Bytes
unfolding ping_rest
heartbeater c ping vid =
    let cmems = get_view c c.myvid in
    let m = smallest c.me cmems in
    let unstable =
      if m == c.me then ping_rest ping c.me cmems else if is_ok (ping m) then none else some m in
    if isamember c.me cmems && nat_eq vid c.myvid then unstable else none
