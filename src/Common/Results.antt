-- ===== src/Common/Results.antt =====
-- The result of code that may stop the process (a failed `VERIFY`).
use mathlib.Core.Path.{◌≡◌, refl}
use mathlib.Core.Logic.{◌⊎◌, inl, inr}
use mathlib.Core.Option.{some}

pub data Outcome {ℓ} (A : Type ℓ) : Type ℓ where
  ok : A → Outcome A
  abort : Outcome A

pub ok-injective {ℓ} : {A : Type ℓ} {a b : A} → Outcome.ok a ≡ Outcome.ok b → a ≡ b
ok-injective h = cc

pub Outcome-cases {ℓ} :
    {A : Type ℓ} (o : Outcome A) → ((a : A) × (o ≡ Outcome.ok a)) ⊎ (o ≡ Outcome.abort)
Outcome-cases (Outcome.ok a) = inl (a, refl)
Outcome-cases Outcome.abort = inr refl

pub eq_of_some {ℓ} : {A : Type ℓ} {a b : A} → some a ≡ some b → a ≡ b
eq_of_some h = cc
