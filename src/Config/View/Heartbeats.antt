-- ===== src/Config/View/Heartbeats.antt =====
-- What a round of `config::heartbeater` removes (config.cc).
use ds.Common.{
  ℕ, ◌≡◌, ◌≢◌, refl, true, false, List, [], ◌∷◌, some, Bytes, bytes_Eq, arith, inl, ◌⊎◌, eq_of_some,
}
use ds.Paxos.Quorum.{isamember}
use ds.Config.View.{Views, get_view, smallest, ping_rest, heartbeater, Heartbeat, is_ok}

smallest_member :
    (m : Bytes) (l : List Bytes) → (smallest m l ≡ m) ⊎ (isamember (smallest m l) l ≡ true)
unfolding smallest isamember
smallest_member m [] = inl refl
smallest_member m (x ∷ l) = ground (
  arith,
  smallest_member m l,
  smallest_member x l,
  bytes_Eq.beq_iff x (smallest m l),
  bytes_Eq.beq_iff x (smallest x l),
)

ping_rest_member :
    (ping : Bytes → Heartbeat) (me : Bytes) (l : List Bytes) (m : Bytes)
    → ping_rest ping me l ≡ some m
    → (isamember m l ≡ true) × (m ≢ me) × (is_ok (ping m) ≡ false)
unfolding ping_rest isamember
ping_rest_member ping me [] m h = cc
ping_rest_member ping me (x ∷ l) m h = ground (
  arith,
  ping_rest_member ping me l m,
  bytes_Eq.beq_iff x m,
  bytes_Eq.beq_iff x me,
  bytes_Eq.beq_iff m me,
  eq_of_some {a = x} {b = m},
)

-- What a round of the heartbeater removes is a member of the view other than the node itself, whose
-- heartbeat failed, and the node is a member and the view is the one that the pings began with.
pub heartbeater_removes :
    (c : Views) (ping : Bytes → Heartbeat) (vid : ℕ) (m : Bytes)
    → heartbeater c ping vid ≡ some m
    → (isamember m (get_view c c.myvid) ≡ true)
      × (m ≢ c.me)
      × (is_ok (ping m) ≡ false)
      × (isamember c.me (get_view c c.myvid) ≡ true)
      × (vid ≡ c.myvid)
unfolding heartbeater
heartbeater_removes c ping vid m h =
    let view = get_view c c.myvid in
    ground (
      arith,
      ping_rest_member ping c.me view m,
      smallest_member c.me view,
      bytes_Eq.beq_iff (smallest c.me view) c.me,
      eq_of_some {a = smallest c.me view} {b = m},
    )
