-- ===== src/Paxos/Proposal.antt =====
-- Proposal numbers (`prop_t` of paxos_protocol.h) and their order (`operator>` and `operator>=` of
-- paxos.cc): by number, then by the address of the proposer.
use ds.Common.{
  ℕ, ◌≡◌, ◌⊎◌, Bool, true, false, not, ◌&&◌, ◌||◌, arith, ltb, nat_eq, Bytes, bytes_lt, bytes_le,
  bytes_lt_irrefl, bytes_lt_trans, bytes_lt_total,
}

-- `prop_t`
pub record Prop : Type 0 where
  pub n : ℕ
  pub m : Bytes

-- `operator>`
unfoldable pub gt : Prop → Prop → Bool
gt a b = ltb b.n a.n || (nat_eq a.n b.n && bytes_lt b.m a.m)

-- `operator>=`
unfoldable pub ge : Prop → Prop → Bool
ge a b = ltb b.n a.n || (nat_eq a.n b.n && bytes_le b.m a.m)

pub gt_irrefl : (a : Prop) → gt a a ≡ false
unfolding gt
gt_irrefl a = ground (arith, bytes_lt_irrefl a.m)

pub gt_trans : (a b c : Prop) → gt a b ≡ true → gt b c ≡ true → gt a c ≡ true
unfolding gt
gt_trans a b c h k = ground (arith, bytes_lt_trans c.m b.m a.m)

pub gt_total : (a b : Prop) → (gt a b ≡ true) ⊎ (a ≡ b) ⊎ (gt b a ≡ true)
unfolding gt
gt_total a b = ground (arith, bytes_lt_total a.m b.m)

pub gt_asymm : (a b : Prop) → gt a b ≡ true → gt b a ≡ false
unfolding gt
gt_asymm a b h = ground (arith, gt_trans a b a, gt_irrefl a)

pub ge-not-gt : (a b : Prop) → ge a b ≡ not (gt b a)
unfolding gt ge
ge-not-gt a b = ground (
  arith,
  bytes_lt_total a.m b.m,
  bytes_lt_irrefl a.m,
  bytes_lt_trans a.m b.m a.m,
  bytes_lt_trans b.m a.m b.m,
)

pub gt-ge : (a b : Prop) → gt a b ≡ true → ge a b ≡ true
gt-ge a b h = ground (arith, ge-not-gt a b, gt_asymm a b)

pub ge_refl : (a : Prop) → ge a a ≡ true
ge_refl a = ground (arith, ge-not-gt a a, gt_irrefl a)

pub ge_trans : (a b c : Prop) → ge a b ≡ true → ge b c ≡ true → ge a c ≡ true
ge_trans a b c h k = ground (
  arith,
  ge-not-gt a b,
  ge-not-gt b c,
  ge-not-gt a c,
  gt_total b c,
  gt_total a b,
  gt_trans c a b,
  gt_trans b c a,
)

pub ge_antisymm : (a b : Prop) → ge a b ≡ true → ge b a ≡ true → a ≡ b
ge_antisymm a b h k = ground (arith, ge-not-gt a b, ge-not-gt b a, gt_total a b)

pub ge-gt_trans : (a b c : Prop) → ge a b ≡ true → gt b c ≡ true → gt a c ≡ true
ge-gt_trans a b c h k = ground (arith, ge-not-gt a b, gt_total a b, gt_trans a b c)
