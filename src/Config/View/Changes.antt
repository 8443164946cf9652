-- ===== src/Config/View/Changes.antt =====
-- What a commit of a view that `add` or `remove_wo` proposes makes of the members (config.cc).
use ds.Common.{
  ℕ, ◌≡◌, refl, true, not, ◌&&◌, ◌||◌, List, [], ◌∷◌, ◌++◌, Bytes, bytes_Eq, ◌==◌, All, IsWord,
  arith,
}
use ds.Paxos.Quorum.{isamember}
use ds.Config.View.{Views, value, paxos_commit, without, delete_handles}
use ds.Config.View.Text.{members-value}

IsMemberOf : List Bytes → Bytes → Type 0
IsMemberOf l m = isamember m l ≡ true

All-snoc : (l : List Bytes) (m : Bytes) → All IsWord l → IsWord m → All IsWord (l ++ (m ∷ []))
All-snoc [] m w n = (n, tt)
All-snoc (x ∷ l) m w n = (w.0, All-snoc l m w.1 n)

All-without : (m : Bytes) (l : List Bytes) → All IsWord l → All IsWord (without m l)
unfolding without
All-without m [] w = tt
All-without m (x ∷ l) w = ground (arith, w, All-without m l w.1)

isamember-append :
    (m : Bytes) (a b : List Bytes) → isamember m (a ++ b) ≡ (isamember m a || isamember m b)
unfolding isamember
isamember-append m [] b = refl
isamember-append m (x ∷ a) b = ground (arith, isamember-append m a b)

pub isamember-without :
    (m x : Bytes) (l : List Bytes) → isamember x (without m l) ≡ (isamember x l && not (m == x))
unfolding isamember without
isamember-without m x [] = refl
isamember-without m x (y ∷ l) = ground (
  arith,
  isamember-without m x l,
  bytes_Eq.beq_iff y m,
  bytes_Eq.beq_iff y x,
  bytes_Eq.beq_iff m x,
)

-- No handle is deleted where all old members are members.
delete_handles_none :
    (me : Bytes) (new mems deleted : List Bytes)
    → ((m : Bytes) → isamember m mems ≡ true → isamember m new ≡ true)
    → delete_handles me new mems deleted ≡ deleted
unfolding delete_handles isamember
delete_handles_none me new [] deleted h = refl
delete_handles_none me new (x ∷ mems) deleted h = ground (
  arith,
  h x,
  bytes_Eq.beq_iff x x,
  delete_handles_none me new mems deleted (λ m k. h m (ground (arith, k))),
)

-- When the view that `add` proposes is committed, the members are the old ones and the new one
-- behind them, and no handle is deleted. No address is empty or holds white space.
pub paxos_commit-add :
    (c : Views) (i : ℕ) (new_m : Bytes)
    → All IsWord c.mems
    → IsWord new_m
    → ((paxos_commit c i (value (c.mems ++ (new_m ∷ [])))).mems ≡ c.mems ++ (new_m ∷ []))
      × ((paxos_commit c i (value (c.mems ++ (new_m ∷ [])))).deleted ≡ c.deleted)
unfolding paxos_commit
paxos_commit-add c i new_m w n =
    let e = members-value (c.mems ++ (new_m ∷ [])) (All-snoc c.mems new_m w n) in
    (
      e,
      rw e (
          delete_handles_none c.me _ c.mems c.deleted
            (λ m k. ground (arith, isamember-append m c.mems (new_m ∷ [])))),
    )

-- When the view that `remove_wo` proposes is committed, the members are the old ones but the removed
-- one. No address is empty or holds white space.
pub paxos_commit-remove :
    (c : Views) (i : ℕ) (m x : Bytes)
    → All IsWord c.mems
    → isamember x (paxos_commit c i (value (without m c.mems))).mems
      ≡ (isamember x c.mems && not (m == x))
unfolding paxos_commit
paxos_commit-remove c i m x w =
    rw (members-value (without m c.mems) (All-without m c.mems w)) (isamember-without m x c.mems)
