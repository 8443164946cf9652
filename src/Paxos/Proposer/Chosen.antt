-- ===== src/Paxos/Proposer/Chosen.antt =====
-- What a run of the proposer that returns true has reached (`proposer::accept`, `decide` and `run` of
-- paxos.cc).
use ds.Common.{
  ℕ, ◌≤◌, ◌<◌, ◌≡◌, ◌≢◌, ◌⊎◌, inl, inr, refl, sym, ◌∙◌, ap, subst, Bool, true, false, List, [], ◌∷◌,
  ◌++◌, Option, none, some, arith, Bytes, Outcome, ok-injective, bytes_Eq, nat_Eq, lookup,
  Bool-cases, value_or-insert, ltb,
}
use mathlib.Core.Bool.{false≢true}
use ds.Paxos.Proposal.{Prop}
use ds.Paxos.Quorum.{isamember, majority}
use ds.Paxos.State.{Acceptor, u32, value}
use ds.Paxos.Log.{loginstance, logaccept}
use ds.Paxos.Acceptor.{acceptreq, decidereq, commit_wo}
use ds.Paxos.Proposer.{
  World, Proposer, Gathered, Ran, call, push_if, accept, with_unit, decide, run_accept,
  run_prepared, run, or_new, setn,
}
use ds.Paxos.Proposer.Rounds.{Holds, HoldsOrDown, call-Holds, call-HoldsOrDown, call_reply}

-- The acceptor's latest accepted proposal is this one.
abbrev pub Accepted : Prop → Bytes → Acceptor → Type 0
Accepted n v s = (s.n_a ≡ n) × (s.v_a ≡ v)

-- It accepted the proposal, or it decided the instance with that value.
abbrev pub Chosen : ℕ → Prop → Bytes → Acceptor → Type 0
Chosen i n v s = Accepted n v s ⊎ ((i ≤ s.instance_h) × (s.instance_h < u32) × (value s i ≡ v))

isamember-push :
    (x y : Bytes) (l : List Bytes)
    → isamember x (l ++ (y ∷ [])) ≡ true
    → (isamember x l ≡ true) ⊎ (y ≡ x)
unfolding isamember
isamember-push x y [] h = ground (arith, bytes_Eq.beq_iff y x)
isamember-push x y (z ∷ l) h = ground (arith, isamember-push x y l)

module _ (p : Proposer) (i : ℕ) (v : Bytes) where
  accept_request : Acceptor → Outcome (Acceptor × Bool)
  accept_request s = Outcome.ok (acceptreq s (record { instance_ = i; n = p.my_n; v = v }))

  acceptreq-Accepted :
      (s t : Acceptor) (r : Bool)
      → accept_request s ≡ Outcome.ok (t, r)
      → (r ≡ true) ⊎ Accepted p.my_n v s
      → Accepted p.my_n v t
  unfolding accept_request acceptreq logaccept
  acceptreq-Accepted s t r e h = ground (arith, ok-injective e)

  -- Every node of the list holds the proposal as its latest accepted one.
  abbrev pub AllAccepted : List Bytes → World → Type 0
  AllAccepted l w = (x : Bytes) → isamember x l ≡ true → Holds (Accepted p.my_n v) x w

  accept_request-ne-abort : (s : Acceptor) → accept_request s ≢ Outcome.abort
  unfolding accept_request
  accept_request-ne-abort s e = cc

  accept_kept :
      (node : Bytes) (accepts : List Bytes) (w : World)
      → AllAccepted accepts w
      → AllAccepted accepts (call accept_request node w).0
  accept_kept node accepts w h x m =
      call-Holds accept_request node x (Accepted p.my_n v)
        (λ s t r e a. acceptreq-Accepted s t r e (inr a)) (λ s a. accept_request-ne-abort s) w
        (h x m)

  accept_step :
      (node : Bytes) (accepts : List Bytes) (w : World) (o : Option Bool)
      → AllAccepted accepts w
      → (call accept_request node w).1 ≡ o
      → AllAccepted (push_if o node accepts) (call accept_request node w).0
  accept_step node accepts w none h e = accept_kept node accepts w h
  accept_step node accepts w (some false) h e = accept_kept node accepts w h
  accept_step node accepts w (some true) h e = λ x m. elim (isamember-push x node accepts m) [
    | inl old ↦ accept_kept node accepts w h x old
    | inr new ↦
        let (s, t, l, served, l') = call_reply accept_request node w true e in
        (
          t,
          ap (λ k. lookup k (call accept_request node w).0.nodes) (sym new) ∙ l',
          acceptreq-Accepted s t true served (inl refl),
        )
  ]

  -- The nodes that `accept` reports hold the proposal.
  accept-AllAccepted :
      (nodes accepts : List Bytes) (w : World)
      → AllAccepted accepts w
      → AllAccepted (accept p i nodes v accepts w).1 (accept p i nodes v accepts w).0
  unfolding accept accept_request
  accept-AllAccepted [] accepts w h = h
  accept-AllAccepted (node ∷ nodes) accepts w h =
      accept-AllAccepted nodes _ _ (accept_step node accepts w _ h refl)

module _ (i : ℕ) (n : Prop) (v : Bytes) (bounds : (0 < i) × (i < u32)) where
  decide_request : Acceptor → Outcome (Acceptor × Unit {0})
  decide_request s = with_unit (decidereq s (record { instance_ = i; v = v }))

  commit_wo-Chosen : (s : Acceptor) → Accepted n v s → Chosen i n v (commit_wo s i s.v_a)
  unfolding commit_wo loginstance
  commit_wo-Chosen s h = elim (Bool-cases (ltb s.instance_h i)) [
    | inl new ↦
        rw new (
          inr
            (omega arith, bounds.1, ground (arith, value_or-insert {K = ℕ} [] i i s.v_a s.values)))
    | inr old ↦ rw old (inl h)
  ]

  decidereq-Chosen :
      (s t : Acceptor)
      → decidereq s (record { instance_ = i; v = v }) ≡ Outcome.ok t
      → Chosen i n v s
      → Chosen i n v t
  unfolding decidereq
  decidereq-Chosen s t e (inl a) = ground (arith, commit_wo-Chosen s a)
  decidereq-Chosen s t e (inr (old, fits, val)) =
      let same : s ≡ t = ground arith in subst (Chosen i n v) same (inr (old, fits, val))

  with_unit-ok :
      (o : Outcome Acceptor) (t : Acceptor) (r : Unit {0})
      → with_unit o ≡ Outcome.ok (t, r)
      → o ≡ Outcome.ok t
  with_unit-ok (Outcome.ok s) t r e = cc
  with_unit-ok Outcome.abort t r e = cc

  decide-Chosen :
      (nodes : List Bytes) (x : Bytes) (w : World)
      → HoldsOrDown (Chosen i n v) x w
      → HoldsOrDown (Chosen i n v) x (decide i nodes v w)
  unfolding decide decide_request
  decide-Chosen [] x w h = h
  decide-Chosen (node ∷ nodes) x w h = decide-Chosen nodes x _ (
      call-HoldsOrDown decide_request node x (Chosen i n v)
        (λ s t r e c. decidereq-Chosen s t (with_unit-ok _ t r e) c) w h)

abbrev was_true : Ran → Bool
was_true (Ran.returned b) = b
was_true Ran.exited = false

pub not_true : Ran.returned false ≡ Ran.returned true → ⊥
not_true e = false≢true (ap was_true e)

not_exited : Ran.exited ≡ Ran.returned true → ⊥
not_exited e = false≢true (ap was_true e)

-- What a successful run has reached with a proposal and its value.
abbrev pub IsChosenAs : ℕ → List Bytes → Prop → Bytes → World → Type 0
IsChosenAs i cur n v w =
    (accepts : List Bytes) × (majority cur accepts ≡ true)
    × ((x : Bytes) → isamember x accepts ≡ true → HoldsOrDown (Chosen i n v) x w)

abbrev pub IsChosen : ℕ → List Bytes → Prop → World → Type 0
IsChosen i cur n w =
    (v : Bytes) × (accepts : List Bytes) × (majority cur accepts ≡ true)
    × ((x : Bytes) → isamember x accepts ≡ true → HoldsOrDown (Chosen i n v) x w)

module _ (p : Proposer) (i : ℕ) (bounds : (0 < i) × (i < u32)) (cur : List Bytes) where
  run_accept-IsChosenAs :
      (nodes : List Bytes) (v : Bytes) (w : World)
      → (run_accept p i cur nodes v w).1 ≡ Ran.returned true
      → IsChosenAs i cur p.my_n v (run_accept p i cur nodes v w).0
  unfolding run_accept isamember
  run_accept-IsChosenAs nodes v w h = elim (Bool-cases (majority cur (accept p i nodes v [] w).1)) [
    | inr few ↦ absurd (not_true (rw few at h))
    | inl enough ↦ elim (Bool-cases p.break2) [
      | inl stop ↦ absurd (not_exited (simp (enough, stop) at h))
      | inr go ↦
          let held = accept-AllAccepted p i v nodes [] w (λ x m. absurd (no_member x m)) in
          simp (enough, go)
            (
              (accept p i nodes v [] w).1,
              enough,
              λ x m.
                  decide-Chosen i p.my_n v bounds _ x _
                    (let (s, l, a) = held x m in inr (s, l, inl a)),
            )
    ]
  ]
    where
      no_member : (x : Bytes) → isamember x [] ≡ true → ⊥
      no_member x e = absurd (false≢true e)

  -- The value is the one that the promises came with, or the new one.
  pub run_prepared-IsChosenAs :
      (newv : Bytes) (w : World) (o : Option Gathered)
      → (run_prepared p i cur newv w o).1 ≡ Ran.returned true
      → (g : Gathered) × (o ≡ some g)
        × IsChosenAs i cur p.my_n (or_new g.v newv) (run_prepared p i cur newv w o).0
  unfolding run_prepared
  run_prepared-IsChosenAs newv w none h = absurd (not_true h)
  run_prepared-IsChosenAs newv w (some g) h = elim (Bool-cases (majority cur g.accepts)) [
    | inr few ↦ absurd (not_true (rw few at h))
    | inl enough ↦ elim (Bool-cases p.break1) [
      | inl stop ↦ absurd (not_exited (simp (enough, stop) at h))
      | inr go ↦
          simp (enough, go)
            (g, refl, run_accept-IsChosenAs g.accepts (or_new g.v newv) w (simp (enough, go) at h))
    ]
  ]

  run_prepared-IsChosen :
      (newv : Bytes) (w : World) (o : Option Gathered)
      → (run_prepared p i cur newv w o).1 ≡ Ran.returned true
      → IsChosen i cur p.my_n (run_prepared p i cur newv w o).0
  run_prepared-IsChosen newv w o h =
      let (g, e, c) = run_prepared-IsChosenAs newv w o h in (or_new g.v newv, c.0, c.1, c.2)

-- A run of a proposer for an instance above 0 that returns true has a value that a majority of the
-- current nodes accepted under the number of the run: each of these nodes, unless it is down, still
-- holds that proposal as its latest accepted one or has that value for the instance.
pub run-IsChosen :
    (p : Proposer) (i : ℕ) (cur : List Bytes) (newv : Bytes) (w : World)
    → (0 < i) × (i < u32)
    → (run p i cur newv w).2 ≡ Ran.returned true
    → IsChosen i cur (setn p w).my_n (run p i cur newv w).1
unfolding run
run-IsChosen p i cur newv w bounds h = elim (Bool-cases p.stable) [
  | inr busy ↦ absurd (not_true (simp busy at h))
  | inl idle ↦ simp idle (
      run_prepared-IsChosen (record (setn p w) { stable = false }) i bounds cur newv _ _
        (simp idle at h))
]
