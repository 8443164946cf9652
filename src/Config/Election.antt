-- ===== src/Config/Election.antt =====
-- The leader election of config.cc: the state that its handlers share, and the handlers. The
-- counters are unsigned ints, times come from the clock as arguments, and each handler counts its
-- calls of `pthread_mutex_lock` and `pthread_mutex_unlock` on `cfg_mutex`.
pub mod Leader
pub mod Registry
use ds.Common.{
  ℕ, ◌+◌, ◌-◌, ◌*◌, ◌/◌, ◌%◌, ◌^◌, Bool, true, false, not, ◌&&◌, ◌||◌, List, [], ◌∷◌, Option, none,
  some, Bytes, Map, insert, lookup, touch, value_or, or_else, bytes_Eq, ◌==◌, ltb, leb, nat_eq,
  bytes_lt, length, if◌then◌else◌,
}
use ds.Config.Epoch.{
  EpochNum, EpochState, EpochView, epoch_less, state_less, state_less_or_equal, max_state,
}

abbrev pub u32 : ℕ
u32 = 2 ^ 32

-- The members of `class config` that the election uses.
pub record Election : Type 0 where
  pub me : Bytes
  pub mems : List Bytes
  pub refresh_num : ℕ
  pub seq_num : ℕ
  pub read_num : ℕ
  pub status_msg_count : ℕ
  pub ack_msg_count : ℕ
  pub epoch_count : ℕ
  pub last_read_start_time : ℕ
  pub last_completed_read_start_time : ℕ
  pub epoch_start_time : ℕ
  pub delta : ℕ
  pub theta : ℕ
  pub leader : Bytes
  pub is_leader : Bool
  pub global_max_en : EpochNum
  pub local_max_en : EpochNum
  pub leader_epoch : EpochNum
  pub registry : Map Bytes EpochState
  pub epoch_views : Map Bytes EpochView
  pub old_epoch_views : Map Bytes EpochView
  pub locks : ℕ
  pub unlocks : ℕ

-- What `operator[]` makes of a missing key.
abbrev pub no_state : EpochState
no_state = record { en = record { serial_num = 0; id = [] }; freshness = 0 }

abbrev pub no_view : EpochView
no_view = record { state = no_state; expired = false }

-- The election part of `config::config`; the serial numbers that it leaves unset are arguments.
unfoldable pub config : Bytes → List Bytes → ℕ → ℕ → ℕ → Election
config me mems a b c =
    let start : EpochState = record { en = record { serial_num = 0; id = me }; freshness = 0 } in
    record {
      me = me;
      mems = mems;
      refresh_num = 0;
      seq_num = 0;
      read_num = 0;
      status_msg_count = 0;
      ack_msg_count = 0;
      epoch_count = 0;
      last_read_start_time = 0;
      last_completed_read_start_time = 0;
      epoch_start_time = 0;
      delta = 3;
      theta = 3;
      leader = [];
      is_leader = false;
      global_max_en = record { serial_num = a; id = [] };
      local_max_en = record { serial_num = b; id = [] };
      leader_epoch = record { serial_num = c; id = [] };
      registry = (me, start) ∷ [];
      epoch_views = (me, record { state = start; expired = true }) ∷ [];
      old_epoch_views = [];
      locks = 0;
      unlocks = 0;
    }

abbrev pub lock : Election → Election
lock s = record s { locks = s.locks + 1 }

abbrev pub unlock : Election → Election
unlock s = record s { unlocks = s.unlocks + 1 }

-- `registry[m]`
abbrev pub registered : Election → Bytes → EpochState
registered s m = value_or no_state m s.registry

-- `(mems.size() >> 1) + 1`
abbrev pub quorum : Election → ℕ
quorum s = length s.mems / 2 + 1

-- `config::refreshReq`: its three comparisons of `registry[src]` and `rg` are those of `stateLess`.
unfoldable pub refresh_req : Election → Bytes → EpochState → Election
refresh_req s src rg =
    let t = record (lock s) { registry = touch no_state src s.registry } in
    if ltb (registered t src).en.serial_num rg.en.serial_num
      || (nat_eq (registered t src).en.serial_num rg.en.serial_num
          && bytes_lt (registered t src).en.id rg.en.id)
      || (nat_eq (registered t src).en.serial_num rg.en.serial_num
          && ((registered t src).en.id == rg.en.id)
          && ltb (registered t src).freshness rg.freshness)
    then unlock (record t { registry = insert src rg t.registry })
    else t

-- `config::ackReq`
unfoldable pub ack_req : Election → Election
ack_req s =
    let n = (s.ack_msg_count + 1) % u32 in
    let t = record (lock s) { ack_msg_count = n } in
    unlock (
      if leb (quorum s) n
      then record t {
        registry =
            insert s.me
              (record (registered s s.me) { freshness = ((registered s s.me).freshness + 1) % u32 })
              s.registry;
      }
      else t)

-- `config::roundTripTimeOut`, up to the round trip that `getEpochWithTimer` starts.
unfoldable pub round_trip_time_out : Election → Election
round_trip_time_out s = record s {
  refresh_num = (s.refresh_num + 1) % u32;
  is_leader = false;
  epoch_views =
      insert s.me (record (value_or no_view s.me s.epoch_views) { expired = true }) s.epoch_views;
  epoch_count = 0;
  global_max_en = (registered s s.me).en;
  registry = touch no_state s.me s.registry;
  seq_num = (s.seq_num + 1) % u32;
}

-- A timeout of the timer in `config::getEpochWithTimer`.
unfoldable pub get_epoch_time_out : Election → Election
get_epoch_time_out s = record s {
  seq_num = (s.seq_num + 1) % u32;
  epoch_count = 0;
  global_max_en = (registered s s.me).en;
  registry = touch no_state s.me s.registry;
}

-- The comparison in the loop of `config::getEpochNumReq`.
abbrev pub later_en : EpochNum → EpochNum → EpochNum
later_en best en =
    if ltb best.serial_num en.serial_num
      || (nat_eq en.serial_num best.serial_num && bytes_lt best.id en.id)
    then en
    else best

-- The loop of `config::getEpochNumReq` behind its first entry; each round unlocks the mutex.
unfoldable pub scan_registry : EpochNum → Map Bytes EpochState → Election → Election
scan_registry best [] s = record s { local_max_en = best }
scan_registry best ((m, st) ∷ r) s = scan_registry (later_en best st.en) r (unlock s)

-- The body of `config::getEpochNumReq` on the entries of the registry.
unfoldable pub read_registry : Map Bytes EpochState → Election → Option Election
read_registry [] s = none
read_registry ((m, st) ∷ r) s = some (scan_registry st.en r (lock s))

-- `config::getEpochNumReq`; none where the registry is empty, whose first entry it would read.
unfoldable pub get_epoch_num_req : Election → Option Election
get_epoch_num_req s = read_registry s.registry s

-- `config::retEpochNumReq`
unfoldable pub ret_epoch_num_req : Election → ℕ → EpochNum → ℕ → Election
ret_epoch_num_req s sn en now = unlock (
    if nat_eq sn s.seq_num
    then (let best = later_en s.global_max_en en in
        let n = (s.epoch_count + 1) % u32 in
        let t = record (lock s) { global_max_en = best; epoch_count = n } in
        if leb (quorum s) n
        then record t {
          registry =
              insert s.me
                (record (registered s s.me) {
                  en = record {
                    serial_num = (best.serial_num + 1) % u32;
                    id = (registered s s.me).en.id;
                  };
                })
                s.registry;
          epoch_start_time = now;
        }
        else t)
    else lock s)

-- `config::readTimeOut`, up to the collect threads that it starts.
unfoldable pub read_time_out : Election → ℕ → Election
read_time_out s now = unlock (record (lock s) {
  last_read_start_time = now;
  read_num = (s.read_num + 1) % u32;
  status_msg_count = 0;
  old_epoch_views = s.epoch_views;
})

-- The first loop of `config::statusReq`.
unfoldable pub merge_views : Map Bytes EpochState → Map Bytes EpochView → Map Bytes EpochView
merge_views src_reg [] = []
merge_views src_reg ((m, v) ∷ views) =
    (m, record v { state = max_state v.state (value_or no_state m src_reg) })
    ∷ merge_views src_reg views

-- The body of the second loop of `config::statusReq`.
abbrev pub expire : EpochView → EpochView → EpochView
expire old v =
    let w = if state_less_or_equal v.state old.state then record v { expired = true } else v in
    if epoch_less old.state.en v.state.en then record w { expired = false } else w

-- The second loop of `config::statusReq`.
unfoldable pub expire_views : Map Bytes EpochView → Map Bytes EpochView → Map Bytes EpochView
expire_views old [] = []
expire_views old ((m, v) ∷ views) = (m, expire (value_or no_view m old) v) ∷ expire_views old views

-- What that loop's `operator[]` enters into the old views.
unfoldable pub touch_views : Map Bytes EpochView → Map Bytes EpochView → Map Bytes EpochView
touch_views old [] = old
touch_views old ((m, v) ∷ views) = touch_views (touch no_view m old) views

-- The third loop of `config::statusReq`: `inited` is not assigned in it.
unfoldable pub find_min : Bool → EpochNum → Map Bytes EpochView → EpochNum
find_min inited best [] = best
find_min inited best ((m, v) ∷ views) =
    find_min inited
      (if (not v.expired && not inited) || (not v.expired && epoch_less v.state.en best)
        then v.state.en
        else best)
      views

-- The part of `config::statusReq` that a majority of answers reaches; `garbage` is the unset
-- `minEpoch`.
unfoldable pub complete_read : EpochNum → Election → Election
unfolding find_min expire_views touch_views
complete_read garbage s =
    let views = expire_views s.old_epoch_views s.epoch_views in
    let inited = false in
    let min_epoch = find_min inited garbage views in
    let leader_epoch = if inited then min_epoch else record { serial_num = 0; id = [] } in
    record s {
      last_completed_read_start_time = s.last_read_start_time;
      epoch_views = views;
      old_epoch_views = touch_views s.old_epoch_views s.epoch_views;
      leader_epoch = leader_epoch;
      leader = leader_epoch.id;
    }

-- `config::statusReq`
unfoldable pub status_req : EpochNum → Election → ℕ → Map Bytes EpochState → Election
unfolding complete_read merge_views
status_req garbage s rn src_reg = unlock (
    if nat_eq rn s.read_num
    then (let n = (s.status_msg_count + 1) % u32 in
        let t = record (lock s) {
          epoch_views = merge_views src_reg s.epoch_views;
          status_msg_count = n;
        } in
        if leb (quorum s) n then complete_read garbage t else t)
    else lock s)

-- The condition of `config::becomeLeader`: the difference of the times is one of unsigned ints.
abbrev pub may_lead : Election → Bool
may_lead s =
    nat_eq s.leader_epoch.serial_num (registered s s.me).en.serial_num
    && (s.leader_epoch.id == (registered s s.me).en.id)
    && leb (2 * s.delta + 3 * s.theta)
        ((s.last_completed_read_start_time + u32 - s.epoch_start_time) % u32)

-- `config::becomeLeader`
unfoldable pub become_leader : Election → Election
become_leader s =
    let t = record (lock s) { registry = touch no_state s.me s.registry } in
    unlock (if may_lead s then record t { is_leader = true } else t)

-- The events of the election.
pub data Event : Type 0 where
  refreshed : Bytes → EpochState → Event
  acked round_trip_timed_out get_epoch_timed_out asked_epoch_num leads : Event
  returned_epoch_num : ℕ → EpochNum → ℕ → Event
  read_timed_out : ℕ → Event
  status : EpochNum → ℕ → Map Bytes EpochState → Event

-- An event; the read of an empty registry is left out, which `me` is never missing from.
unfoldable pub handle : Election → Event → Election
handle s (refreshed src rg) = refresh_req s src rg
handle s acked = ack_req s
handle s round_trip_timed_out = round_trip_time_out s
handle s get_epoch_timed_out = get_epoch_time_out s
handle s asked_epoch_num = or_else s (get_epoch_num_req s)
handle s leads = become_leader s
handle s (returned_epoch_num sn en now) = ret_epoch_num_req s sn en now
handle s (read_timed_out now) = read_time_out s now
handle s (status garbage rn src_reg) = status_req garbage s rn src_reg

unfoldable pub handle_all : Election → List Event → Election
handle_all s [] = s
handle_all s (e ∷ es) = handle_all (handle s e) es
