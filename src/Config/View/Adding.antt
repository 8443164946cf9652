-- ===== src/Config/View/Adding.antt =====
-- The view that `add` proposes, from its run to its commit (config.cc).
use ds.Common.{
  ◌+◌, ◌%◌, ◌≡◌, ◌<◌, refl, true, [], ◌∷◌, ◌++◌, Bytes, some, All, IsWord, arith, eq_of_some, ap,
  sym, ◌∙◌, subst, nat_Eq, nat_eq,
}
use ds.Paxos.State.{u32}
use ds.Paxos.Proposer.{Proposer, World, Ran, run, setn}
use ds.Paxos.Proposer.Chosen.{IsChosenAs}
use ds.Paxos.Proposer.Fresh.{IsFresh, run-new}
use ds.Config.View.{Views, value, paxos_commit, add}
use ds.Config.View.Changes.{paxos_commit-add}

add-run :
    (c : Views) (pro : Proposer) (w : World) (new_m : Bytes)
    → c.myvid + 1 < u32
    → add c pro w new_m c.myvid
      ≡ some (run pro (c.myvid + 1) c.mems (value (c.mems ++ (new_m ∷ []))) w)
unfolding add
add-run c pro w new_m b =
    let i : (c.myvid + 1) % u32 ≡ c.myvid + 1 = omega arith in
    let same : nat_eq c.myvid c.myvid ≡ true = (nat_Eq.beq_iff c.myvid c.myvid).1 refl in
    simp (same, i) refl

-- When `add` of the current view has a run of the proposer that returns true, and no running node had
-- accepted a proposal for the next view, then a value is chosen: a majority of the members accepted it
-- under the number of the run, and each of these nodes, unless it is down, still holds it as its
-- latest accepted one or has it for the next view. The commit of that value makes the members the old
-- ones and the new one behind them, and deletes no handle. No address is empty or holds white space.
pub add-IsChosen :
    (c : Views) (pro pro' : Proposer) (w w' : World) (new_m : Bytes)
    → All IsWord c.mems
    → IsWord new_m
    → c.myvid + 1 < u32
    → IsFresh w
    → add c pro w new_m c.myvid ≡ some (pro', w', Ran.returned true)
    → (v : Bytes) × IsChosenAs (c.myvid + 1) c.mems (setn pro w).my_n v w'
      × ((paxos_commit c (c.myvid + 1) v).mems ≡ c.mems ++ (new_m ∷ []))
      × ((paxos_commit c (c.myvid + 1) v).deleted ≡ c.deleted)
add-IsChosen c pro pro' w w' new_m words word b f e =
    let v = value (c.mems ++ (new_m ∷ [])) in
    let r = run pro (c.myvid + 1) c.mems v w in
    let same : r ≡ (pro', w', Ran.returned true) = eq_of_some (sym (add-run c pro w new_m b) ∙ e) in
    let (m, d) = paxos_commit-add c (c.myvid + 1) new_m words word in
    let chosen = run-new pro (c.myvid + 1) c.mems v w (omega arith, b) f (ap (λ q. q.2) same) in
    (
      v,
      subst (λ u. IsChosenAs (c.myvid + 1) c.mems (setn pro w).my_n v u) (ap (λ q. q.1) same)
          chosen,
      m,
      d,
    )
