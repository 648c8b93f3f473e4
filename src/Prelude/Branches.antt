-- ===== src/Prelude/Branches.antt =====
-- Rules for code that branches: what holds of each branch, given its test, holds of the whole.
use mathlib.Core.Path.{◌≡◌, refl}
use mathlib.Core.Bool.{Bool, true, false}
use mathlib.Core.Option.{Option, none, some}
use discord_gateway_proxy.Prelude.Tests.{if◌then◌else◌}

module _ {ℓ κ} {R : Type ℓ} (P : R → Type κ) where
  pub if-branches :
      (b : Bool) {x y : R} → (b ≡ true → P x) → (b ≡ false → P y) → P (if b then x else y)
  if-branches true hx hy = hx refl
  if-branches false hx hy = hy refl

  pub option-branches {μ} :
      {A : Type μ} (o : Option A) {x : R} {f : A → R}
      → (o ≡ none → P x)
      → ((a : A) → o ≡ some a → P (f a))
      → P (elim o [ none ↦ x | some a ↦ f a ])
  option-branches none hx hf = hx refl
  option-branches (some a) hx hf = hf a refl

-- The same for two programs that branch on one test.
module _ {ℓ κ ρ} {R : Type ℓ} {S : Type κ} (P : R → S → Type ρ) where
  pub if-both :
      (b : Bool) {x y : R} {x' y' : S}
      → (b ≡ true → P x x')
      → (b ≡ false → P y y')
      → P (if b then x else y) (if b then x' else y')
  if-both true hx hy = hx refl
  if-both false hx hy = hy refl

  pub option-both {μ} :
      {A : Type μ} (o : Option A) {x : R} {x' : S} {f : A → R} {f' : A → S}
      → (o ≡ none → P x x')
      → ((a : A) → o ≡ some a → P (f a) (f' a))
      → P (elim o [ none ↦ x | some a ↦ f a ]) (elim o [ none ↦ x' | some a ↦ f' a ])
  option-both none hx hf = hx refl
  option-both (some a) hx hf = hf a refl
