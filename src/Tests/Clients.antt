-- ===== src/Tests/Clients.antt =====
-- Runs of the RPC client and of the replicated state machine.
use ds.Common
use ds.Common.{
  nat_Eq, ℕ, suc, leb, ◌+◌, ◌*◌, ◌%◌, ◌^◌, ◌≤◌, ◌<◌, ◌≡◌, ◌≢◌, refl, Bool, true, false, ◌||◌, List,
  [], ◌∷◌, Option, none, some, Bytes, arith, lookup, insert, erase, nat_eq, if◌then◌else◌, Outcome,
}
use ds.Rpc.Client as Calls
use ds.Rpc.Client.{rpcc, Rpcc, front, update_xid_rep}
use ds.Rpc.Client.Done.{done, ascends, update_xid_rep-done}
use ds.Rpc.Client.Outstanding.{pending, xid_rep_lem}
use ds.Rpc.Client.Outstanding
use ds.Rpc.Time.{add_timespec, nanoseconds, add_timespec_lem}
use ds.Rsm.{Cfg, Rsm, ismember}
use ds.Rsm.Primary.{meet, commit_all, commit_all_lem}
use ds.Paxos.Quorum.{isamember}

-- A new RPC client that calls procedure 1 to bind.
abbrev binding : Rpcc
binding = (Calls.begin_call (rpcc 77) 1).0

binding-Reaches : Outstanding.Reaches 77 binding
binding-Reaches =
    Outstanding.Reaches.goes_on (rpcc 77) binding Outstanding.Reaches.starts
      (Outstanding.Happens.begins (rpcc 77) 1 (omega arith))

binding_waits : pending (lookup 1 binding.calls) ≡ true
unfolding Calls.begin_call lookup insert
binding_waits = refl

xid_rep_lem_example : front binding.xid_rep_window < 1
xid_rep_lem_example = xid_rep_lem 77 binding 1 binding-Reaches binding_waits

three : ascends 0 (3 ∷ 5 ∷ []) ≡ true
unfolding ascends
three = refl

update_xid_rep-done_example :
    done 5 (update_xid_rep 4 (3 ∷ 5 ∷ [])) ≡ (done 5 (3 ∷ 5 ∷ []) || nat_eq 5 4)
update_xid_rep-done_example = update_xid_rep-done 5 4 3 (5 ∷ []) (omega arith) three

add_timespec_lem_example :
    (nanoseconds (add_timespec (record { tv_sec = 1; tv_nsec = 999999999 }) 1500)
      ≡ 1999999999 + 1500 * 1000000)
    × ((add_timespec (record { tv_sec = 1; tv_nsec = 999999999 }) 1500).tv_nsec ≤ 1000000000)
add_timespec_lem_example = add_timespec_lem (record { tv_sec = 1; tv_nsec = 999999999 }) 1500

-- Two nodes in every view, which is known once it is decided.
abbrev x : Bytes
x = 49 ∷ []

abbrev both : ℕ → Cfg
both vid = record {
  myaddr = x;
  vid = vid;
  get_view = λ i. if leb i vid then x ∷ (50 ∷ []) ∷ [] else [];
  dump = [];
}

abbrev machine : Rsm
machine = record {
  primary = x;
  insync = false;
  inviewchange = true;
  vid_insync = 0;
  vid_commit = 1;
  myvs = record { vid = 0; seqno = 1 };
  last_myvs = record { vid = 0; seqno = 0 };
  partitioned = false;
  dopartition = false;
  break1 = false;
  break2 = false;
}

known : (i j : ℕ) → i ≤ j → (both j).get_view i ≡ x ∷ (50 ∷ []) ∷ []
known i j h = let k : leb i j ≡ true = ground arith in simp k refl

same_meet : meet (x ∷ (50 ∷ []) ∷ []) (x ∷ (50 ∷ []) ∷ []) ≡ true
unfolding meet isamember Common.bytes_eq
same_meet = refl

views_meet : (i : ℕ) → meet ((both (suc i)).get_view (suc i)) ((both (suc i)).get_view i) ≡ true
views_meet i = rw (known (suc i) (suc i) (omega arith), known i (suc i) (omega arith)) same_meet

x_member : ismember (both 1) x 1 ≡ true
unfolding isamember Common.bytes_eq
x_member = refl

commit_all_lem_example :
    (s : Rsm) × (commit_all both machine 3 ≡ Outcome.ok s)
    × (s.vid_commit ≡ machine.vid_commit + 3)
    × (ismember (both s.vid_commit) s.primary s.vid_commit ≡ true)
    × (s.break2 ≡ false)
commit_all_lem_example =
    commit_all_lem both machine 3 (λ i h l. views_meet i) x_member refl (omega arith)
