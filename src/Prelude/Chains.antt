-- ===== src/Prelude/Chains.antt =====
-- What holds of every result of a chain of fallible steps, one rule for each way to build a chain.
use mathlib.Core.Path.{◌≡◌, refl, subst}
use mathlib.Core.Bool.{Bool, true, false}
use mathlib.Core.Option.{Option, none, some, some-injective}
use discord_gateway_proxy.Prelude.Tests.{if◌then◌else◌}
use discord_gateway_proxy.Prelude.Lists.{◌>>=◌}

pub record Every {ℓ κ} {A : Type ℓ} (P : A → Type κ) (o : Option A) : Type (ℓ ⊔ κ) where
  pub at : (a : A) → o ≡ some a → P a

module _ {ℓ κ} {A : Type ℓ} {P : A → Type κ} where
  pub Every-none : Every P none
  Every-none = record { at = λ a e. cc }

  pub Every-some : (a : A) → P a → Every P (some a)
  Every-some a h = record { at = λ b e. subst P (some-injective a b e) h }

  pub Every-if : (b : Bool) (x y : Option A) → Every P x → Every P y → Every P (if b then x else y)
  Every-if true x y hx hy = hx
  Every-if false x y hx hy = hy

  -- The same, where a branch may use the outcome of the test.
  pub Every-test :
      (b : Bool) (x y : Option A)
      → (b ≡ true → Every P x)
      → (b ≡ false → Every P y)
      → Every P (if b then x else y)
  Every-test true x y hx hy = hx refl
  Every-test false x y hx hy = hy refl

  pub Every-or :
      (m o : Option A) → Every P m → Every P o → Every P (elim m [ some a ↦ some a | none ↦ o ])
  Every-or none o hm ho = ho
  Every-or (some a) o hm ho = hm

  pub Every-bind {μ} :
      {B : Type μ} (m : Option B) (f : B → Option A)
      → ((b : B) → m ≡ some b → Every P (f b))
      → Every P (m >>= f)
  Every-bind none f h = Every-none
  Every-bind (some b) f h = h b refl

pub ruleset every_rules = (Every-none, Every-some, Every-if, Every-or, Every-bind)
