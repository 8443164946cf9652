-- ===== src/Config/Election/Leader.antt =====
-- Who is leader after a history of election events: `config::statusReq` and `config::becomeLeader`
-- (config.cc).
use ds.Common.{
  ℕ, ◌+◌, ◌/◌, ◌%◌, length, ◌&&◌, ◌≡◌, ◌≢◌, refl, sym, ◌∙◌, Bool, true, false, List, [], ◌∷◌, arith,
  Bytes, Map, insert, lookup, touch, value_or, or_else, bytes_Eq, ◌==◌, leb, nat_eq, if◌then◌else◌,
  All, value_or-insert, value_or-touch, Bool-cases, inl, inr,
}
use ds.Config.Epoch.{EpochNum, EpochState}
use ds.Config.Election.{
  Election, no_state, config, registered, u32, later_en, refresh_req, ack_req, round_trip_time_out,
  get_epoch_time_out, scan_registry, read_registry, get_epoch_num_req, ret_epoch_num_req,
  read_time_out, status_req, become_leader, Event, refreshed, acked, round_trip_timed_out,
  get_epoch_timed_out, asked_epoch_num, leads, returned_epoch_num, read_timed_out, status, handle,
  handle_all,
}

-- The node is no leader, the epoch of the leader has the empty address, and its own has not.
pub record IsLeaderless (s : Election) : Type 0 where
  pub follows : s.is_leader ≡ false
  pub empty_id : s.leader_epoch.id ≡ []
  pub own_id : (registered s s.me).en.id ≢ []

-- A refresh carries the address of its sender.
abbrev pub IsNamed : Event → Type 0
IsNamed (refreshed src rg) = rg.en.id ≢ []
IsNamed e = Unit {0}

-- Entries with addresses keep the node's own one.
insert-named :
    (m me : Bytes) (st : EpochState) (r : Map Bytes EpochState)
    → (m ≡ me → st.en.id ≢ [])
    → (value_or no_state me r).en.id ≢ []
    → (value_or no_state me (insert m st r)).en.id ≢ []
insert-named m me st r new old = elim (Bool-cases (m == me)) [
  | inl e ↦
      rw (value_or-insert {K = Bytes} no_state m me st r) (rw e (new ((bytes_Eq.beq_iff m me).0 e)))
  | inr e ↦ rw (value_or-insert {K = Bytes} no_state m me st r) (rw e old)
]

touch-named :
    (m me : Bytes) (r : Map Bytes EpochState)
    → (value_or no_state me r).en.id ≢ []
    → (value_or no_state me (touch no_state m r)).en.id ≢ []
touch-named m me r old = rw (value_or-touch {K = Bytes} no_state m me r) old

own_entry :
    (me : Bytes) (n : ℕ) (r : Map Bytes EpochState)
    → (value_or no_state me r).en.id ≢ []
    → (value_or no_state me (insert me (record (value_or no_state me r) { freshness = n }) r)).en.id
      ≢ []
own_entry me n r old = insert-named me me _ r (λ e. old) old

own_epoch :
    (me : Bytes) (n : ℕ) (r : Map Bytes EpochState)
    → (value_or no_state me r).en.id ≢ []
    → (value_or no_state me (
        insert me
          (record (value_or no_state me r) {
            en = record { serial_num = n; id = (value_or no_state me r).en.id };
          })
          r)).en.id
      ≢ []
own_epoch me n r old = insert-named me me _ r (λ e. old) old

-- A choice of two states that both have the property has it.
if_IsLeaderless :
    (b : Bool) (s t : Election)
    → (b ≡ true → IsLeaderless s)
    → (b ≡ false → IsLeaderless t)
    → IsLeaderless (if b then s else t)
if_IsLeaderless true s t h k = h refl
if_IsLeaderless false s t h k = k refl

and_false : (a b c : Bool) → b ≡ false → (a && b && c) ≡ false
and_false a b c = ground arith

module _ (s : Election) (h : IsLeaderless s) where
  refresh_req-IsLeaderless :
      (src : Bytes) (rg : EpochState) → rg.en.id ≢ [] → IsLeaderless (refresh_req s src rg)
  unfolding refresh_req
  refresh_req-IsLeaderless src rg named =
      let old = touch-named src s.me s.registry h.own_id in
      if_IsLeaderless _ _ _
        (λ e. record {
          follows = h.follows;
          empty_id = h.empty_id;
          own_id = insert-named src s.me rg _ (λ x. named) old;
        })
        (λ e. record { follows = h.follows; empty_id = h.empty_id; own_id = old })

  ack_req-IsLeaderless : IsLeaderless (ack_req s)
  unfolding ack_req
  ack_req-IsLeaderless =
      elim (Bool-cases (leb (length s.mems / 2 + 1) ((s.ack_msg_count + 1) % u32))) [
        | inl e ↦ rw e (record {
          follows = h.follows;
          empty_id = h.empty_id;
          own_id = own_entry s.me _ s.registry h.own_id;
        })
        | inr e ↦ rw e (record { follows = h.follows; empty_id = h.empty_id; own_id = h.own_id })
      ]

  round_trip_time_out-IsLeaderless : IsLeaderless (round_trip_time_out s)
  unfolding round_trip_time_out
  round_trip_time_out-IsLeaderless = record {
    follows = refl;
    empty_id = h.empty_id;
    own_id = touch-named s.me s.me s.registry h.own_id;
  }

  get_epoch_time_out-IsLeaderless : IsLeaderless (get_epoch_time_out s)
  unfolding get_epoch_time_out
  get_epoch_time_out-IsLeaderless = record {
    follows = h.follows;
    empty_id = h.empty_id;
    own_id = touch-named s.me s.me s.registry h.own_id;
  }

  ret_epoch_num_req-IsLeaderless :
      (sn : ℕ) (en : EpochNum) (now : ℕ) → IsLeaderless (ret_epoch_num_req s sn en now)
  unfolding ret_epoch_num_req
  ret_epoch_num_req-IsLeaderless sn en now = elim (Bool-cases (nat_eq sn s.seq_num)) [
    | inr e ↦ rw e (record { follows = h.follows; empty_id = h.empty_id; own_id = h.own_id })
    | inl e ↦ elim (Bool-cases (leb (length s.mems / 2 + 1) ((s.epoch_count + 1) % u32))) [
      | inl f ↦
          rw (e, f)
            (record {
              follows = h.follows;
              empty_id = h.empty_id;
              own_id = own_epoch s.me _ s.registry h.own_id;
            })
      | inr f ↦ rw (e, f) (record { follows = h.follows; empty_id = h.empty_id; own_id = h.own_id })
    ]
  ]

  read_time_out-IsLeaderless : (now : ℕ) → IsLeaderless (read_time_out s now)
  unfolding read_time_out
  read_time_out-IsLeaderless now = record {
    follows = h.follows;
    empty_id = h.empty_id;
    own_id = h.own_id;
  }

  status_req-IsLeaderless :
      (garbage : EpochNum) (rn : ℕ) (src_reg : Map Bytes EpochState)
      → IsLeaderless (status_req garbage s rn src_reg)
  unfolding status_req
  status_req-IsLeaderless garbage rn src_reg = elim (Bool-cases (nat_eq rn s.read_num)) [
    | inr e ↦ rw e (record { follows = h.follows; empty_id = h.empty_id; own_id = h.own_id })
    | inl e ↦ elim (Bool-cases (leb (length s.mems / 2 + 1) ((s.status_msg_count + 1) % u32))) [
      | inl f ↦ rw (e, f) (record { follows = h.follows; empty_id = refl; own_id = h.own_id })
      | inr f ↦ rw (e, f) (record { follows = h.follows; empty_id = h.empty_id; own_id = h.own_id })
    ]
  ]

  become_leader-IsLeaderless : IsLeaderless (become_leader s)
  unfolding become_leader
  become_leader-IsLeaderless = elim (Bool-cases (s.leader_epoch.id == (registered s s.me).en.id)) [
    | inl e ↦ absurd (h.own_id (sym ((bytes_Eq.beq_iff _ _).0 e) ∙ h.empty_id))
    | inr e ↦ rw (and_false _ _ _ e) (record {
      follows = h.follows;
      empty_id = h.empty_id;
      own_id = touch-named s.me s.me s.registry h.own_id;
    })
  ]

scan_registry-IsLeaderless :
    (r : Map Bytes EpochState) (best : EpochNum) (s : Election)
    → IsLeaderless s
    → IsLeaderless (scan_registry best r s)
unfolding scan_registry
scan_registry-IsLeaderless [] best s h = record {
  follows = h.follows;
  empty_id = h.empty_id;
  own_id = h.own_id;
}
scan_registry-IsLeaderless ((m, st) ∷ r) best s h =
    scan_registry-IsLeaderless r (later_en best st.en) _
      (record { follows = h.follows; empty_id = h.empty_id; own_id = h.own_id })

read_registry-IsLeaderless :
    (r : Map Bytes EpochState) (s : Election)
    → IsLeaderless s
    → IsLeaderless (or_else s (read_registry r s))
unfolding read_registry
read_registry-IsLeaderless [] s h = h
read_registry-IsLeaderless ((m, st) ∷ r) s h =
    scan_registry-IsLeaderless r st.en _
      (record { follows = h.follows; empty_id = h.empty_id; own_id = h.own_id })

handle-IsLeaderless :
    (e : Event) (s : Election) → IsNamed e → IsLeaderless s → IsLeaderless (handle s e)
unfolding handle get_epoch_num_req
handle-IsLeaderless (refreshed src rg) s n h = refresh_req-IsLeaderless s h src rg n
handle-IsLeaderless acked s n h = ack_req-IsLeaderless s h
handle-IsLeaderless round_trip_timed_out s n h = round_trip_time_out-IsLeaderless s h
handle-IsLeaderless get_epoch_timed_out s n h = get_epoch_time_out-IsLeaderless s h
handle-IsLeaderless asked_epoch_num s n h = read_registry-IsLeaderless s.registry s h
handle-IsLeaderless leads s n h = become_leader-IsLeaderless s h
handle-IsLeaderless (returned_epoch_num sn en now) s n h =
    ret_epoch_num_req-IsLeaderless s h sn en now
handle-IsLeaderless (read_timed_out now) s n h = read_time_out-IsLeaderless s h now
handle-IsLeaderless (status garbage rn src_reg) s n h =
    status_req-IsLeaderless s h garbage rn src_reg

handle_all-IsLeaderless :
    (es : List Event) (s : Election)
    → All IsNamed es
    → IsLeaderless s
    → IsLeaderless (handle_all s es)
unfolding handle_all
handle_all-IsLeaderless [] s n h = h
handle_all-IsLeaderless (e ∷ es) s n h =
    handle_all-IsLeaderless es (handle s e) n.1 (handle-IsLeaderless e s n.0 h)

config-IsLeaderless :
    (me : Bytes) (mems : List Bytes) (a b c : ℕ) → me ≢ [] → IsLeaderless (config me mems a b c)
unfolding config lookup
config-IsLeaderless me mems a b c named = record {
  follows = refl;
  empty_id = refl;
  own_id = rw ((bytes_Eq.beq_iff me me).1 refl) named;
}

-- A node that starts with an address of its own and handles any events, in which refreshes carry
-- the address of their sender, is never leader and has the empty address for the leader's.
pub handle_all-follows :
    (me : Bytes) (mems : List Bytes) (a b c : ℕ) (es : List Event)
    → me ≢ []
    → All IsNamed es
    → ((handle_all (config me mems a b c) es).is_leader ≡ false)
      × ((handle_all (config me mems a b c) es).leader_epoch.id ≡ [])
handle_all-follows me mems a b c es named n =
    let h = handle_all-IsLeaderless es _ n (config-IsLeaderless me mems a b c named) in
    (h.follows, h.empty_id)
