-- ===== src/Common/Maps.antt =====
-- `std::map` as an association list with one entry for a key. A read by `operator[]` of a missing
-- key is written out where it is used.
use mathlib.Core.Path.{◌≡◌, refl}
use mathlib.Core.Logic.{◌≢◌}
use mathlib.Core.Bool.{Bool, true, false}
use mathlib.Core.Option.{Option, none, some}
use mathlib.Core.List.{List, [], ◌∷◌}
use native.Mathlib.Omega.{arith}
use ds.Common.Tests.{Eq, ◌==◌, if◌then◌else◌}

abbrev pub Map {ℓ κ} : Type ℓ → Type κ → Type (ℓ ⊔ κ)
Map K V = List (K × V)

abbrev pub or_else {ℓ} : {A : Type ℓ} → A → Option A → A
or_else d none = d
or_else d (some a) = a

abbrev pub is_some {ℓ} : {A : Type ℓ} → Option A → Bool
is_some none = false
is_some (some a) = true

module _ {ℓ κ} {K : Type ℓ} {V : Type κ} ⦃e : Eq K⦄ where
  unfoldable pub lookup : K → Map K V → Option V
  lookup key [] = none
  lookup key ((i, a) ∷ rest) = if i == key then some a else lookup key rest

  unfoldable pub insert : K → V → Map K V → Map K V
  insert key new [] = (key, new) ∷ []
  insert key new ((i, a) ∷ rest) =
      if i == key then (key, new) ∷ rest else (i, a) ∷ insert key new rest

  unfoldable pub erase : K → Map K V → Map K V
  erase k [] = []
  erase k ((j, w) ∷ m) = let rest = erase k m in if j == k then rest else (j, w) ∷ rest

  pub lookup-insert :
      (k j : K) (v : V) (m : Map K V)
      → lookup j (insert k v m) ≡ (if k == j then some v else lookup j m)
  unfolding lookup insert
  lookup-insert k j v [] = refl
  lookup-insert k j v ((i, a) ∷ rest) =
      ground (arith, lookup-insert k j v rest, e.beq_iff i j, e.beq_iff i k, e.beq_iff k j)

  pub lookup-insert_self : (k : K) (v : V) (m : Map K V) → lookup k (insert k v m) ≡ some v
  lookup-insert_self k v m = ground (arith, lookup-insert k k v m, e.beq_iff k k)

  pub lookup-insert_ne :
      (k j : K) (v : V) (m : Map K V) → k ≢ j → lookup j (insert k v m) ≡ lookup j m
  lookup-insert_ne k j v m h = ground (arith, lookup-insert k j v m, e.beq_iff k j)

  pub lookup-erase :
      (k j : K) (m : Map K V) → lookup j (erase k m) ≡ (if k == j then none else lookup j m)
  unfolding lookup erase
  lookup-erase k j [] = ground arith
  lookup-erase k j ((i, w) ∷ m) =
      ground (arith, e.beq_iff k j, e.beq_iff i k, e.beq_iff i j, lookup-erase k j m)

-- `m[k]` as a value: a missing key reads as the default.
abbrev pub value_or {ℓ κ} : {K : Type ℓ} {V : Type κ} ⦃e : Eq K⦄ → V → K → Map K V → V
value_or d k m = or_else d (lookup k m)

-- `m[k]` as a map: the key is there afterwards.
abbrev pub touch {ℓ κ} : {K : Type ℓ} {V : Type κ} ⦃e : Eq K⦄ → V → K → Map K V → Map K V
touch d k m = insert k (value_or d k m) m

pub value_or-insert {ℓ κ} :
    {K : Type ℓ} {V : Type κ} ⦃e : Eq K⦄ (d : V) (k j : K) (v : V) (m : Map K V)
    → value_or d j (insert k v m) ≡ (if k == j then v else value_or d j m)
value_or-insert ⦃e⦄ d k j v m = ground (arith, lookup-insert k j v m)

-- Reading by `operator[]` changes no value.
pub value_or-touch {ℓ κ} :
    {K : Type ℓ} {V : Type κ} ⦃e : Eq K⦄ (d : V) (k j : K) (m : Map K V)
    → value_or d j (touch d k m) ≡ value_or d j m
value_or-touch ⦃e⦄ d k j m = ground (arith, lookup-insert k j (value_or d k m) m, e.beq_iff k j)

-- Chains of optional values.
infixl 5 ◌>>=◌
abbrev pub ◌>>=◌ {ℓ κ} : {A : Type ℓ} {B : Type κ} → Option A → (A → Option B) → Option B
none >>= f = none
some a >>= f = f a
