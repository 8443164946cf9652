-- ===== src/Paxos/Quorum.antt =====
-- Members and majorities (`isamember`, `print_members` and `proposer::majority` of paxos.cc).
use ds.Common.{
  ℕ, ◌+◌, ◌≤◌, ◌<◌, ◌/◌, ◌≡◌, refl, Bool, true, false, ◌&&◌, List, [], ◌∷◌, arith, leb, ◌==◌,
  if◌then◌else◌, Bytes, bytes_Eq, length, Bool-cases, inl, inr,
}

-- `isamember`: whether a node is in the list.
unfoldable pub isamember : Bytes → List Bytes → Bool
isamember m [] = false
isamember m (x ∷ nodes) = if x == m then true else isamember m nodes

-- The loop of `proposer::majority`: how many entries of l1 are members of l2.
unfoldable pub count_members : List Bytes → List Bytes → ℕ
count_members [] l2 = 0
count_members (x ∷ l1) l2 = (if isamember x l2 then 1 else 0) + count_members l1 l2

-- `proposer::majority`
unfoldable pub majority : List Bytes → List Bytes → Bool
majority l1 l2 = leb (length l1 / 2 + 1) (count_members l1 l2)

-- The entries of l that are members of both lists.
count_both : List Bytes → List Bytes → List Bytes → ℕ
count_both [] a b = 0
count_both (x ∷ l) a b = (if isamember x a && isamember x b then 1 else 0) + count_both l a b

count_overlap :
    (l a b : List Bytes) → count_members l a + count_members l b ≤ length l + count_both l a b
unfolding count_members count_both
count_overlap [] a b = omega arith
count_overlap (x ∷ l) a b = ground (arith, count_overlap l a b)

count_both_witness :
    (l a b : List Bytes)
    → 0 < count_both l a b
    → (x : Bytes) × (isamember x l ≡ true) × (isamember x a ≡ true) × (isamember x b ≡ true)
unfolding count_both isamember
count_both_witness [] a b h = elim h [ ]
count_both_witness (x ∷ l) a b h = elim (Bool-cases (isamember x a && isamember x b)) [
  | inl both ↦ (x, ground (arith, (bytes_Eq.beq_iff x x).1 refl), ground arith, ground arith)
  | inr not_both ↦
      let (y, in_l, in_a, in_b) = count_both_witness l a b (ground arith) in
      (y, ground arith, in_a, in_b)
]

-- Two majorities of one list of nodes have a node in common, which is in the list.
pub majority_intersect :
    (l a b : List Bytes)
    → majority l a ≡ true
    → majority l b ≡ true
    → (x : Bytes) × (isamember x l ≡ true) × (isamember x a ≡ true) × (isamember x b ≡ true)
unfolding majority
majority_intersect l a b h k = count_both_witness l a b (ground (arith, count_overlap l a b))
