-- ===== src/Paxos/Proposer/Rounds.antt =====
-- What one RPC of the proposer does to the nodes (`call` of rpcc behind `handle::safebind`).
use ds.Common.{
  ◌≡◌, ◌≢◌, ◌⊎◌, inl, inr, refl, sym, ◌∙◌, ap, Option, none, some, Bytes, Map, Outcome, Bool-cases,
  lookup, bytes_Eq, ◌==◌, lookup-insert, lookup-insert_self, lookup-erase, subst, List,
  if◌then◌else◌, eq_of_some,
}
use ds.Paxos.State.{Acceptor}
use ds.Paxos.Proposer.{Fate, World, next_fate, handled, sent, call}

-- The node at the address runs, in a state with the property.
abbrev pub Holds : (Acceptor → Type 0) → Bytes → World → Type 0
Holds P x w = (s : Acceptor) × (lookup x w.nodes ≡ some s) × P s

-- The node runs in such a state, or it is down.
abbrev pub HoldsOrDown : (Acceptor → Type 0) → Bytes → World → Type 0
HoldsOrDown P x w = (lookup x w.nodes ≡ none) ⊎ Holds P x w

-- What a call may do to the node at an address: nothing, serve the request, or take the node down.
pub data Effect {R : Type 0} (h : Acceptor → Outcome (Acceptor × R)) (node x : Bytes)
    (before after : Option Acceptor) : Type 0 where
  same : after ≡ before → Effect h node x before after
  served :
      (s t : Acceptor) (r : R)
      → node ≡ x
      → before ≡ some s
      → h s ≡ Outcome.ok (t, r)
      → after ≡ some t
      → Effect h node x before after
  died :
      (s : Acceptor)
      → node ≡ x
      → before ≡ some s
      → h s ≡ Outcome.abort
      → after ≡ none
      → Effect h node x before after

module _ {R : Type 0} (h : Acceptor → Outcome (Acceptor × R)) (node x : Bytes) where
  handled_effect :
      (f : Fate) (fs : List Fate) (ns : Map Bytes Acceptor) (s : Acceptor)
      (o : Outcome (Acceptor × R))
      → h s ≡ o
      → lookup node ns ≡ some s
      → Effect h node x (lookup x ns) (lookup x (handled node f fs ns o).0.nodes)
  unfolding handled
  handled_effect f fs ns s (Outcome.ok (t, r)) e l = elim (Bool-cases (node == x)) [
    | inl hit ↦
        let here : node ≡ x = (bytes_Eq.beq_iff node x).0 hit in
        served s t r here (ap (λ k. lookup k ns) (sym here) ∙ l) e
          (lookup-insert node x t ns ∙ ap (λ b. if b then some t else lookup x ns) hit)
    | inr miss ↦ same (lookup-insert node x t ns ∙ ap (λ b. if b then some t else lookup x ns) miss)
  ]
  handled_effect f fs ns s Outcome.abort e l = elim (Bool-cases (node == x)) [
    | inl hit ↦
        let here : node ≡ x = (bytes_Eq.beq_iff node x).0 hit in
        died s here (ap (λ k. lookup k ns) (sym here) ∙ l) e
          (lookup-erase node x ns ∙ ap (λ b. if b then none else lookup x ns) hit)
    | inr miss ↦ same (lookup-erase node x ns ∙ ap (λ b. if b then none else lookup x ns) miss)
  ]

  sent_effect :
      (w : World) (f : Fate) (o : Option Acceptor)
      → lookup node w.nodes ≡ o
      → Effect h node x (lookup x w.nodes) (lookup x (sent h node w f o).0.nodes)
  unfolding sent
  sent_effect w f none l = same refl
  sent_effect w Fate.lost (some s) l = same refl
  sent_effect w Fate.answered (some s) l = handled_effect Fate.answered _ w.nodes s (h s) refl l
  sent_effect w Fate.unanswered (some s) l = handled_effect Fate.unanswered _ w.nodes s (h s) refl l

  pub call_effect :
      (w : World) → Effect h node x (lookup x w.nodes) (lookup x (call h node w).0.nodes)
  unfolding call
  call_effect w = sent_effect w (next_fate w.fates) (lookup node w.nodes) refl

  -- A property that the handler keeps holds after a call of any node, if the handler does not abort
  -- where it holds.
  pub call-Holds :
      (P : Acceptor → Type 0)
      → ((s t : Acceptor) (r : R) → h s ≡ Outcome.ok (t, r) → P s → P t)
      → ((s : Acceptor) → P s → h s ≢ Outcome.abort)
      → (w : World) → Holds P x w
      → Holds P x (call h node w).0
  call-Holds P keep live w (s, l, p) = elim (call_effect w) [
    | same e ↦ (s, e ∙ l, p)
    | served s' t r here b e a ↦ (t, a, keep s' t r e (subst P (eq_of_some (sym l ∙ b)) p))
    | died s' here b e a ↦ absurd (live s' (subst P (eq_of_some (sym l ∙ b)) p) e)
  ]

  -- The same where the handler may abort.
  pub call-HoldsOrDown :
      (P : Acceptor → Type 0)
      → ((s t : Acceptor) (r : R) → h s ≡ Outcome.ok (t, r) → P s → P t)
      → (w : World) → HoldsOrDown P x w
      → HoldsOrDown P x (call h node w).0
  call-HoldsOrDown P keep w (inl down) = elim (call_effect w) [
    | same e ↦ inl (e ∙ down)
    | served s' t r here b e a ↦ absurd (none_some s' (sym down ∙ b))
    | died s' here b e a ↦ inl a
  ]
    where
      none_some : (s : Acceptor) → none ≡ some s → ⊥
      none_some s e = cc
  call-HoldsOrDown P keep w (inr (s, l, p)) = elim (call_effect w) [
    | same e ↦ inr (s, e ∙ l, p)
    | served s' t r here b e a ↦ inr (t, a, keep s' t r e (subst P (eq_of_some (sym l ∙ b)) p))
    | died s' here b e a ↦ inl a
  ]

-- What a reply that arrives says of the node that made it.
abbrev pub Replied :
    {R : Type 0} (h : Acceptor → Outcome (Acceptor × R)) (node : Bytes) (w v : World) (r : R)
    → Type 0
Replied h node w v r =
    (s : Acceptor) × (t : Acceptor) × (lookup node w.nodes ≡ some s)
    × (h s ≡ Outcome.ok (t, r))
    × (lookup node v.nodes ≡ some t)

module _ {R : Type 0} (h : Acceptor → Outcome (Acceptor × R)) (node : Bytes) where
  handled_reply :
      (f : Fate) (fs : List Fate) (w : World) (s : Acceptor) (o : Outcome (Acceptor × R)) (r : R)
      → h s ≡ o
      → lookup node w.nodes ≡ some s
      → (handled node f fs w.nodes o).1 ≡ some r
      → Replied h node w (handled node f fs w.nodes o).0 r
  unfolding handled
  handled_reply Fate.answered fs w s (Outcome.ok (t, q)) r e l a =
      (s, t, l, e ∙ ap (λ y. Outcome.ok (t, y)) (eq_of_some a), lookup-insert_self node t w.nodes)
  handled_reply Fate.lost fs w s (Outcome.ok (t, q)) r e l a = cc
  handled_reply Fate.unanswered fs w s (Outcome.ok (t, q)) r e l a = cc
  handled_reply f fs w s Outcome.abort r e l a = cc

  sent_reply :
      (w : World) (f : Fate) (o : Option Acceptor) (r : R)
      → lookup node w.nodes ≡ o
      → (sent h node w f o).1 ≡ some r
      → Replied h node w (sent h node w f o).0 r
  unfolding sent
  sent_reply w f none r l a = cc
  sent_reply w Fate.lost (some s) r l a = cc
  sent_reply w Fate.answered (some s) r l a = handled_reply Fate.answered _ w s (h s) r refl l a
  sent_reply w Fate.unanswered (some s) r l a = handled_reply Fate.unanswered _ w s (h s) r refl l a

  pub call_reply :
      (w : World) (r : R) → (call h node w).1 ≡ some r → Replied h node w (call h node w).0 r
  unfolding call
  call_reply w r a = sent_reply w (next_fate w.fates) (lookup node w.nodes) r refl a
