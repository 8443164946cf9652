-- ===== src/Tests/Views.antt =====
-- Runs of the views and of the leader election.
use ds.Common
use ds.Common.{
  ℕ, ◌+◌, ◌≤◌, ◌≡◌, ◌≢◌, ◌⊎◌, ◌↔◌, refl, Bool, true, false, not, ◌&&◌, List, [], ◌∷◌, ◌++◌, Option,
  none, some, Bytes, bytes_Eq, ◌==◌, arith, All, IsWord, none_of, if◌then◌else◌, leb, read_word,
  skip_space, span, lookup, insert,
}
use ds.Paxos.State.{blank}
use ds.Paxos.Quorum.{isamember}
use ds.Config.Epoch.{EpochState}
use ds.Config.View.{
  Views, Heartbeat, members, value, paxos_commit, without, get_view, heartbeater, smallest,
  ping_rest, is_ok, read_members,
}
use ds.Config.View.Changes.{paxos_commit-remove}
use ds.Config.View.Heartbeats.{heartbeater_removes}
use ds.Config.Election.{Election, Event, config, handle_all}
use ds.Config.Election.Registry.{Refresh, refresh_all, all_newer, refresh_all-unlocks}
use ds.Config.Election.Leader.{handle_all-follows}

abbrev a : Bytes
a = 65 ∷ []

abbrev b : Bytes
b = 66 ∷ []

abbrev c : Bytes
c = 67 ∷ []

a-IsWord : IsWord a
unfolding none_of
a-IsWord = record { ne_nil = λ e. cc; no_space = refl }

b-IsWord : IsWord b
unfolding none_of
b-IsWord = record { ne_nil = λ e. cc; no_space = refl }

c-IsWord : IsWord c
unfolding none_of
c-IsWord = record { ne_nil = λ e. cc; no_space = refl }

-- The second view has the members a and b.
abbrev views : Views
views = record {
  me = a;
  vc = true;
  myvid = 2;
  mems = a ∷ b ∷ [];
  acc = record (blank true a []) { instance_h = 2; values = (2, 65 ∷ 32 ∷ 66 ∷ 32 ∷ []) ∷ [] };
  deleted = [];
  changes = [];
}

paxos_commit-remove_example :
    isamember b (paxos_commit views 3 (value (without b views.mems))).mems
    ≡ (isamember b views.mems && not (b == b))
paxos_commit-remove_example = paxos_commit-remove views 3 b b (a-IsWord, (b-IsWord, tt))

-- Node b does not answer.
abbrev silent : Bytes → Heartbeat
silent m = if m == b then Heartbeat.failure else Heartbeat.ok

removes_b : heartbeater views silent 2 ≡ some b
unfolding heartbeater get_view members read_members read_word skip_space span smallest ping_rest
    isamember lookup Common.bytes_eq Common.bytes_lt
removes_b = refl

heartbeater_removes_example :
    (isamember b (get_view views 2) ≡ true)
    × (b ≢ a)
    × (is_ok (silent b) ≡ false)
    × (isamember a (get_view views 2) ≡ true)
    × (2 ≡ views.myvid)
heartbeater_removes_example = heartbeater_removes views silent 2 b removes_b

abbrev fresh : EpochState
fresh = record { en = record { serial_num = 1; id = b }; freshness = 1 }

abbrev stale : EpochState
stale = record { en = record { serial_num = 1; id = a }; freshness = 4 }

abbrev events : List Event
events =
    Event.refreshed b fresh
    ∷ Event.acked
    ∷ Event.round_trip_timed_out
    ∷ Event.read_timed_out 9
    ∷ Event.status fresh.en 1 ((b, fresh) ∷ [])
    ∷ Event.asked_epoch_num
    ∷ Event.leads
    ∷ []

handle_all-follows_example :
    ((handle_all (config a (a ∷ []) 0 0 0) events).is_leader ≡ false)
    × ((handle_all (config a (a ∷ []) 0 0 0) events).leader_epoch.id ≡ [])
handle_all-follows_example =
    handle_all-follows a (a ∷ []) 0 0 0 events (λ e. cc)
      (λ e. cc, (tt, (tt, (tt, (tt, (tt, (tt, tt)))))))

-- A refresh that arrives twice.
abbrev election : Election
election = config a (a ∷ b ∷ []) 0 0 0

abbrev refreshes : List Refresh
refreshes = (b, fresh) ∷ (b, fresh) ∷ []

refresh_all-unlocks_example :
    ((refresh_all election refreshes).unlocks + election.locks
      ≡ (refresh_all election refreshes).locks + election.unlocks)
    ↔ (all_newer election refreshes ≡ true)
refresh_all-unlocks_example = refresh_all-unlocks election refreshes
