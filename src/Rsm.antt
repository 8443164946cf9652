-- ===== src/Rsm.antt =====
-- The replicated state machine (rsm.cc): its view changes, joins and tests, between the holds of
-- `rsm_mutex`. The bodies that the source leaves empty (invoke, the state transfer) are not here.
pub mod Primary
use ds.Common.{
  ℕ, ◌+◌, ◌-◌, ◌%◌, ◌^◌, ◌≡◌, Bool, true, false, not, ◌&&◌, List, [], ◌∷◌, ◌++◌, Option, none, some,
  Bytes, bytes_eq, nat_eq, leb, if◌then◌else◌, Outcome,
}
use ds.Paxos.Quorum.{isamember}

-- What the machine asks of its configuration.
pub record Cfg : Type 0 where
  pub myaddr : Bytes
  pub vid : ℕ
  pub get_view : ℕ → List Bytes
  pub dump : Bytes

-- `config::ismember`
abbrev pub ismember : Cfg → Bytes → ℕ → Bool
ismember cfg m vid = isamember m (cfg.get_view vid)

-- `viewstamp`
pub record Viewstamp : Type 0 where
  pub vid : ℕ
  pub seqno : ℕ

pub record Rsm : Type 0 where
  pub primary : Bytes
  pub insync : Bool
  pub inviewchange : Bool
  pub vid_insync : ℕ
  pub vid_commit : ℕ
  pub myvs : Viewstamp
  pub last_myvs : Viewstamp
  pub partitioned : Bool
  pub dopartition : Bool
  pub break1 : Bool
  pub break2 : Bool

-- The loop of `set_primary`: the first member of the old view that is in the new one.
unfoldable pub first_in : List Bytes → List Bytes → Option Bytes
first_in c [] = none
first_in c (m ∷ p) = let more = first_in c p in if isamember m c then some m else more

abbrev pub is_nil : List Bytes → Bool
is_nil [] = true
is_nil (m ∷ c) = false

abbrev pub elected : Rsm → Option Bytes → Outcome Rsm
elected r none = Outcome.abort
elected r (some m) = Outcome.ok (record r { primary = m })

-- `rsm::set_primary`; `vid - 1` is a 32-bit number.
unfoldable pub set_primary : Cfg → Rsm → ℕ → Outcome Rsm
unfolding first_in
set_primary cfg r vid =
    let c = cfg.get_view vid in
    let p = cfg.get_view ((vid + (2 ^ 32 - 1)) % 2 ^ 32) in
    if is_nil c
    then Outcome.abort
    else if isamember r.primary c
    then Outcome.ok r
    else if is_nil p
    then Outcome.abort
    else elected r (first_in c p)

-- `rsm::breakpoint2` stops the process.
abbrev pub breakpoint2 : Rsm → Outcome Rsm
breakpoint2 r = if r.break2 then Outcome.abort else Outcome.ok r

-- `if (cfg->ismember(cfg->myaddr(), vid_commit)) breakpoint2();`
abbrev pub committed : Cfg → Outcome Rsm → Outcome Rsm
committed cfg Outcome.abort = Outcome.abort
committed cfg (Outcome.ok r) =
    if ismember cfg cfg.myaddr r.vid_commit then breakpoint2 r else Outcome.ok r

-- `rsm::commit_change_wo`, and `rsm::commit_change` under the mutex
unfoldable pub commit_change_wo : Cfg → Rsm → ℕ → Outcome Rsm
unfolding set_primary
commit_change_wo cfg r vid =
    let changed = set_primary cfg (record r { vid_commit = vid; inviewchange = true }) vid in
    if leb vid r.vid_commit then Outcome.ok r else committed cfg changed

-- `rsm::rsm`
unfoldable pub rsm : Cfg → Bytes → Bytes → Outcome Rsm
unfolding commit_change_wo
rsm cfg first me =
    let r : Rsm = record {
      primary = first;
      insync = false;
      inviewchange = true;
      vid_insync = 0;
      vid_commit = 0;
      myvs = record { vid = 0; seqno = 1 };
      last_myvs = record { vid = 0; seqno = 0 };
      partitioned = false;
      dopartition = false;
      break1 = false;
      break2 = false;
    } in
    if bytes_eq first me then commit_change_wo cfg r 1 else Outcome.ok r

-- The end of the loop of `recovery`, after a synchronization for the view `vid_insync` that came to `ok`.
unfoldable pub recovered : Rsm → Bool → Rsm
recovered r ok =
    if nat_eq r.vid_insync r.vid_commit && ok
    then record r { myvs = record { vid = r.vid_commit; seqno = 1 }; inviewchange = false }
    else r

-- `vid_insync = vid_commit;`
abbrev pub begin_sync : Rsm → Rsm
begin_sync r = record r { vid_insync = r.vid_commit }

-- What `joinreq` answers.
pub data JoinRes : Type 0 where
  join_ok : Bytes → JoinRes
  join_busy : JoinRes

-- `rsm::joinreq`: `after` is the configuration once `cfg->add` returned.
unfoldable pub joinreq : Cfg → Cfg → Rsm → Bytes → JoinRes
joinreq cfg after r m =
    if ismember cfg m r.vid_commit
    then join_ok cfg.dump
    else if not (bytes_eq cfg.myaddr r.primary)
    then join_busy
    else if ismember after m after.vid
    then join_ok after.dump
    else join_busy

-- `rsm::client_members`
abbrev pub client_members : Cfg → Rsm → List Bytes
client_members cfg r = cfg.get_view r.vid_commit ++ (r.primary ∷ [])

-- `rsm::amiprimary`
abbrev pub amiprimary : Cfg → Rsm → Bool
amiprimary cfg r = bytes_eq r.primary cfg.myaddr && not r.inviewchange

-- `rsm::net_repair_wo`: the nodes whose handles are set.
unfoldable pub others : Bytes → List Bytes → List Bytes
others me [] = []
others me (m ∷ rest) = let more = others me rest in if bytes_eq m me then more else m ∷ more

abbrev pub net_repair_wo : Cfg → Rsm → List Bytes
net_repair_wo cfg r = others cfg.myaddr (cfg.get_view r.vid_commit)

-- `rsm::test_net_repairreq`
unfoldable pub test_net_repairreq : Rsm → Bool → Rsm
test_net_repairreq r heal =
    if heal
    then record r { partitioned = false }
    else record r { dopartition = true; partitioned = false }

-- `rsm::partition1`: with the nodes that are cut off.
unfoldable pub partition1 : Cfg → Rsm → Rsm × List Bytes
partition1 cfg r =
    if r.dopartition
    then (record r { dopartition = false; partitioned = true }, net_repair_wo cfg r)
    else (r, [])

-- `rsm::breakpointreq`, with whether it answers OK. Breakpoints 3 and 4 are those of the configuration.
unfoldable pub breakpointreq : Rsm → ℕ → Rsm × Bool
breakpointreq r b =
    if nat_eq b 1
    then (record r { break1 = true }, true)
    else if nat_eq b 2
    then (record r { break2 = true }, true)
    else (r, if nat_eq b 3 then true else nat_eq b 4)
