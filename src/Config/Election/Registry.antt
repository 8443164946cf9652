-- ===== src/Config/Election/Registry.antt =====
-- The registry and the mutex of the election's requests (config.cc).
use ds.Common.{
  ◌+◌, ◌≤◌, ◌≡◌, refl, sym, ◌∙◌, subst, Bool, true, false, ◌&&◌, List, [], ◌∷◌, Bytes, touch,
  bytes_Eq, ◌==◌, if◌then◌else◌, arith, value_or-insert, value_or-touch, Bool-cases, inl, inr, ◌↔◌,
}
use ds.Config.Epoch.{EpochState, state_less, max_state, state_less_trans}
use ds.Config.Election.{Election, no_state, registered, refresh_req}

-- A refresh of a sender leaves the larger of the entry and the refresh in the registry for it, and
-- does not change what is there for others.
pub refresh_req-registered :
    (s : Election) (src : Bytes) (rg : EpochState) (m : Bytes)
    → registered (refresh_req s src rg) m
      ≡ (if src == m then max_state (registered s src) rg else registered s m)
unfolding refresh_req max_state state_less
refresh_req-registered s src rg m = ground (
  arith,
  bytes_Eq.beq_iff src m,
  bytes_Eq.beq_iff src src,
  value_or-touch {K = Bytes} no_state src m s.registry,
  value_or-touch {K = Bytes} no_state src src s.registry,
  value_or-insert {K = Bytes} no_state src m rg (touch no_state src s.registry),
)

-- A refresh that arrives: its sender and its state.
abbrev pub Refresh : Type 0
Refresh = Bytes × EpochState

unfoldable pub refresh_all : Election → List Refresh → Election
refresh_all s [] = s
refresh_all s (r ∷ rs) = refresh_all (refresh_req s r.0 r.1) rs

-- The refreshes of the sender are all newer than the state.
unfoldable pub newer_than : Bytes → EpochState → List Refresh → Bool
newer_than src rg [] = true
newer_than src rg (r ∷ rs) =
    (if src == r.0 then state_less rg r.1 else true) && newer_than src rg rs

-- Each refresh is newer than what is in the registry for its sender, and than all refreshes of the same
-- sender before it.
unfoldable pub all_newer : Election → List Refresh → Bool
all_newer s [] = true
all_newer s (r ∷ rs) =
    state_less (registered s r.0) r.1 && (newer_than r.0 r.1 rs && all_newer s rs)

-- A call of `refresh_req` locks the mutex, and unlocks it where the refresh is newer.
refresh_req-locks :
    (s : Election) (src : Bytes) (rg : EpochState)
    → ((refresh_req s src rg).locks ≡ s.locks + 1)
      × ((refresh_req s src rg).unlocks
          ≡ s.unlocks + (if state_less (registered s src) rg then 1 else 0))
unfolding refresh_req state_less
refresh_req-locks s src rg = ground (arith, value_or-touch {K = Bytes} no_state src src s.registry)

-- Behind a refresh that is newer the others are newer exactly if they are newer than it, too.
all_newer-refresh_req :
    (s : Election) (src : Bytes) (rg : EpochState) (rs : List Refresh)
    → state_less (registered s src) rg ≡ true
    → all_newer (refresh_req s src rg) rs ≡ (newer_than src rg rs && all_newer s rs)
unfolding all_newer newer_than max_state
all_newer-refresh_req s src rg [] h = refl
all_newer-refresh_req s src rg (r ∷ rs) h =
    let e = refresh_req-registered s src rg r.0 in
    let newest : max_state (registered s src) rg ≡ rg = rw (h, max_state) refl in
    elim (Bool-cases (src == r.0)) [
      | inl k ↦
          let same : src ≡ r.0 = (bytes_Eq.beq_iff src r.0).0 k in
          let f : registered (refresh_req s src rg) r.0 ≡ rg = e ∙ rw k newest in
          rw (f, k)
            (ground (
              arith,
              all_newer-refresh_req s src rg rs h,
              state_less_trans (registered s r.0) rg r.1,
              subst (λ x. state_less (registered s x) rg ≡ true) same h,
            ))
      | inr k ↦
          let f : registered (refresh_req s src rg) r.0 ≡ registered s r.0 = e ∙ rw k refl in
          rw (f, k) (ground (arith, all_newer-refresh_req s src rg rs h))
    ]

refresh_all-locks :
    (s : Election) (rs : List Refresh)
    → (refresh_all s rs).unlocks + s.locks ≤ (refresh_all s rs).locks + s.unlocks
unfolding refresh_all
refresh_all-locks s [] = omega arith
refresh_all-locks s (r ∷ rs) =
    ground (arith, refresh_req-locks s r.0 r.1, refresh_all-locks (refresh_req s r.0 r.1) rs)

-- After any refreshes the mutex was unlocked as often as it was locked exactly if each refresh is newer
-- than what was in the registry for its sender and than all refreshes of the same sender before it.
pub refresh_all-unlocks :
    (s : Election) (rs : List Refresh)
    → ((refresh_all s rs).unlocks + s.locks ≡ (refresh_all s rs).locks + s.unlocks)
      ↔ (all_newer s rs ≡ true)
unfolding refresh_all all_newer
refresh_all-unlocks s [] = (λ e. refl, λ e. omega arith)
refresh_all-unlocks s (r ∷ rs) =
    let t = refresh_req s r.0 r.1 in
    let (l, u) = refresh_req-locks s r.0 r.1 in
    let (to, from) = refresh_all-unlocks t rs in
    elim (Bool-cases (state_less (registered s r.0) r.1)) [
      | inl k ↦
          let n = all_newer-refresh_req s r.0 r.1 rs k in
          let v : t.unlocks ≡ s.unlocks + 1 = u ∙ rw k refl in
          (
            λ e. rw k (sym n ∙ to (omega (arith, l, v, e))),
            λ e.
                let m : all_newer t rs ≡ true = n ∙ (rw k at e) in
                let b = from m in omega (arith, l, v, b),
          )
      | inr k ↦
          let v : t.unlocks ≡ s.unlocks = u ∙ rw k (omega arith) in
          let b = refresh_all-locks t rs in
          (
            λ e. absurd (omega (arith, l, v, b, e)),
            λ e. let f : false ≡ true = (rw k at e) in absurd (cc),
          )
    ]
