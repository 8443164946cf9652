-- ===== src/Paxos/Proposer/Fresh.antt =====
-- A run of the proposer for an instance in which no node has accepted a proposal yet (`proposer::prepare`
-- and `proposer::run` of paxos.cc).
use ds.Common.{
  ℕ, ◌≡◌, ◌<◌, refl, sym, ◌∙◌, ap, subst, Bool, true, false, List, [], ◌∷◌, Option, none, some,
  Bytes, Outcome, ok-injective, eq_of_some, Bool-cases, inl, inr, arith, Map, All, lookup, bytes_Eq,
  ◌==◌, ◌⊎◌,
}
use ds.Paxos.State.{Acceptor, u32}
use ds.Paxos.Log.{logprop}
use ds.Paxos.Acceptor.{preparereq, Prepareres}
use ds.Paxos.Proposer.{
  World, Proposer, Gathered, Ran, call, gather, acc_commit, no_accepts, no_reply, prepare,
  run_prepared, run, or_new, setn,
}
use ds.Paxos.Proposer.Rounds.{HoldsOrDown, call-HoldsOrDown, call_reply}
use ds.Paxos.Proposer.Chosen.{IsChosenAs, run_prepared-IsChosenAs, not_true}

abbrev HasNone : Acceptor → Type 0
HasNone s = s.v_a ≡ []

-- No node that runs has an accepted value, as after the commit of the instance before.
abbrev pub IsFresh : World → Type 0
IsFresh w = (x : Bytes) → HoldsOrDown HasNone x w

lookup-HasNone :
    (ns : Map Bytes Acceptor) (x : Bytes)
    → All (λ e. HasNone e.1) ns
    → (lookup x ns ≡ none) ⊎ ((s : Acceptor) × (lookup x ns ≡ some s) × HasNone s)
unfolding lookup
lookup-HasNone [] x h = inl refl
lookup-HasNone ((y, s) ∷ ns) x h = elim (Bool-cases (y == x)) [
  | inl k ↦ inr (s, rw k refl, h.0)
  | inr k ↦ rw k (lookup-HasNone ns x h.1)
]

-- The nodes of a table of which none has an accepted value.
pub nodes-IsFresh : (w : World) → All (λ e. HasNone e.1) w.nodes → IsFresh w
nodes-IsFresh w h x = lookup-HasNone w.nodes x h

module _ (p : Proposer) (i : ℕ) where
  request : Acceptor → Outcome (Acceptor × Prepareres)
  request s = Outcome.ok (preparereq s (record { instance_ = i; n = p.my_n }) no_reply)

  request-HasNone :
      (s t : Acceptor) (r : Prepareres)
      → request s ≡ Outcome.ok (t, r)
      → HasNone s
      → HasNone t × (r.oldinstance ≡ false → r.v_a ≡ [])
  unfolding request preparereq logprop
  request-HasNone s t r e h = ground (arith, ok-injective e)

  call-IsFresh : (node : Bytes) (w : World) → IsFresh w → IsFresh (call request node w).0
  call-IsFresh node w h x =
      call-HoldsOrDown request node x HasNone (λ s t r e a. (request-HasNone s t r e a).0) w (h x)

  reply_none :
      (node : Bytes) (w : World) (r : Prepareres)
      → IsFresh w
      → (call request node w).1 ≡ some r
      → r.oldinstance ≡ false
      → r.v_a ≡ []
  reply_none node w r h e o =
      let (s, t, l, served, l') = call_reply request node w r e in
      elim (h node) [
        | inl down ↦ let q : ◌≡◌ {A = Option Acceptor} none (some s) = sym down ∙ l in absurd (cc)
        | inr (u, k, a) ↦
            let q : ◌≡◌ {A = Option Acceptor} (some u) (some s) = sym k ∙ l in
            let b : HasNone s = cc in (request-HasNone s t r served b).1 o
      ]

  gather-none :
      (g : Gathered) (node : Bytes) (r : Prepareres)
      → g.v ≡ []
      → r.v_a ≡ []
      → (gather g node r).v ≡ []
  unfolding gather
  gather-none g node r h k = ground arith

  -- The rest of the loop behind a reply.
  after_flags :
      (node : Bytes) (nodes : List Bytes) (g : Gathered) (w : World) (r : Prepareres)
      (g' : Gathered) (b c : Bool)
      → ((k : Gathered) → k.v ≡ [] → (prepare p i nodes k w).1 ≡ some g' → g'.v ≡ [])
      → (b ≡ false → r.v_a ≡ [])
      → g.v ≡ []
      → (elim b as (λ q. World × Option Gathered) [
        | true ↦ (acc_commit p i r.v_a w, none)
        | false ↦ elim c as (λ q. World × Option Gathered) [
          | true ↦ prepare p i nodes (gather g node r) w
          | false ↦ prepare p i nodes g w
        ]
      ]).1
        ≡ some g'
      → g'.v ≡ []
  after_flags node nodes g w r g' true c ih new h e = absurd (cc)
  after_flags node nodes g w r g' false true ih new h e =
      ih (gather g node r) (gather-none g node r h (new refl)) e
  after_flags node nodes g w r g' false false ih new h e = ih g h e

  after :
      (node : Bytes) (nodes : List Bytes) (g : Gathered) (w : World) (g' : Gathered)
      (o : Option Prepareres)
      → ((k : Gathered) → k.v ≡ [] → (prepare p i nodes k w).1 ≡ some g' → g'.v ≡ [])
      → ((r : Prepareres) → o ≡ some r → r.oldinstance ≡ false → r.v_a ≡ [])
      → g.v ≡ []
      → (elim o as (λ q. World × Option Gathered) [
        | none ↦ prepare p i nodes g w
        | some r ↦ elim r.oldinstance as (λ q. World × Option Gathered) [
          | true ↦ (acc_commit p i r.v_a w, none)
          | false ↦ elim r.accept as (λ q. World × Option Gathered) [
            | true ↦ prepare p i nodes (gather g node r) w
            | false ↦ prepare p i nodes g w
          ]
        ]
      ]).1
        ≡ some g'
      → g'.v ≡ []
  after node nodes g w g' none ih new h e = ih g h e
  after node nodes g w g' (some r) ih new h e =
      after_flags node nodes g w r g' r.oldinstance r.accept ih (new r refl) h e

  -- What `prepare` gathers has no value.
  pub prepare-none :
      (nodes : List Bytes) (g : Gathered) (w : World) (g' : Gathered)
      → IsFresh w
      → g.v ≡ []
      → (prepare p i nodes g w).1 ≡ some g'
      → g'.v ≡ []
  unfolding prepare request
  prepare-none [] g w g' f h e = ap (λ k. k.v) (sym (eq_of_some e)) ∙ h
  prepare-none (node ∷ nodes) g w g' f h e =
      after node nodes g (call request node w).0 g' (call request node w).1
        (λ k. prepare-none nodes k (call request node w).0 g' (call-IsFresh node w f))
        (λ r q o. reply_none node w r f q o) h e

-- A run that returns true where no node had accepted a proposal has its own value chosen.
pub run-new :
    (p : Proposer) (i : ℕ) (cur : List Bytes) (newv : Bytes) (w : World)
    → (0 < i) × (i < u32)
    → IsFresh w
    → (run p i cur newv w).2 ≡ Ran.returned true
    → IsChosenAs i cur (setn p w).my_n newv (run p i cur newv w).1
unfolding run
run-new p i cur newv w bounds f h = elim (Bool-cases p.stable) [
  | inr busy ↦ absurd (not_true (simp busy at h))
  | inl idle ↦
      let q = record (setn p w) { stable = false } in
      let (w1, o) = prepare q i cur no_accepts w in
      let (g, e, c) = run_prepared-IsChosenAs q i bounds cur newv w1 o (simp idle at h) in
      let n = prepare-none q i cur no_accepts w g f refl e in
      simp idle (
        subst (λ v. IsChosenAs i cur q.my_n (or_new v newv) (run_prepared q i cur newv w1 o).0) n c)
]
