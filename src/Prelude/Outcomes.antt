-- ===== src/Prelude/Outcomes.antt =====
-- What a call comes to: `throw e` for an exception, `ok a` for a returned value.
use mathlib.Core.Path.{◌≡◌, refl, ap}
use mathlib.Core.Logic.{◌⊎◌, inl, inr}
use mathlib.Core.Bool.{Bool, true, false}
use mathlib.Core.Option.{Option, none, some}

pub data Outcome {ℓ} (E : Type 0) (A : Type ℓ) : Type ℓ where
  throw : E → Outcome E A
  ok : A → Outcome E A

module _ {ℓ} {E : Type 0} where
  infixl 5 ◌>>=◌
  -- An exception skips the rest of the block.
  abbrev pub ◌>>=◌ {κ} : {A : Type κ} {B : Type ℓ} → Outcome E A → (A → Outcome E B) → Outcome E B
  throw e >>= rest = throw e
  ok value >>= rest = rest value

  infixl 5 ◌>>◌
  abbrev pub ◌>>◌ : {B : Type ℓ} → Outcome E (Unit {0}) → Outcome E B → Outcome E B
  throw e >> rest = throw e
  ok _ >> rest = rest

-- The source's `requireCondition`: `if (!condition) throw e`.
abbrev pub require : {E : Type 0} → Bool → E → Outcome E (Unit {0})
require false e = throw e
require true e = ok tt

-- A value that must be present.
abbrev pub present {ℓ} : {E : Type 0} {A : Type ℓ} → Option A → E → Outcome E A
present none e = throw e
present (some a) e = ok a

-- A block that returns has a first statement that returns.
pub bind_returns {ℓ κ} :
    {E : Type 0} {A : Type κ} {B : Type ℓ} (first : Outcome E A) (rest : A → Outcome E B)
    {value : B}
    → (first >>= rest) ≡ ok value
    → (a : A) × (first ≡ ok a) × (rest a ≡ ok value)
bind_returns (throw e) rest returns = cc
bind_returns (ok a) rest returns = (a, refl, returns)

pub then_returns {ℓ} :
    {E : Type 0} {B : Type ℓ} (first : Outcome E (Unit {0})) (rest : Outcome E B) {value : B}
    → (first >> rest) ≡ ok value
    → (first ≡ ok tt) × (rest ≡ ok value)
then_returns (throw e) rest returns = cc
then_returns (ok tt) rest returns = (refl, returns)

pub require_holds : {E : Type 0} (b : Bool) (e : E) → require b e ≡ ok tt → b ≡ true
require_holds false e h = cc
require_holds true e h = refl

pub ok_inj {ℓ} : {E : Type 0} {A : Type ℓ} {a b : A} → ◌≡◌ {A = Outcome E A} (ok a) (ok b) → a ≡ b
ok_inj {a} e = ap (λ o. elim o [ throw _ ↦ a | ok v ↦ v ]) e

pub present-some {ℓ} :
    {E : Type 0} {A : Type ℓ} (o : Option A) (e : E) {a : A} → present o e ≡ ok a → o ≡ some a
present-some none e h = cc
present-some (some b) e h = ap some (ok_inj h)

pub some_inj {ℓ} : {A : Type ℓ} {a b : A} → some a ≡ some b → a ≡ b
some_inj {a} e = ap (λ o. elim o [ none ↦ a | some x ↦ x ]) e

pub Outcome-cases {ℓ} :
    {E : Type 0} {A : Type ℓ} (o : Outcome E A) → ((e : E) × (o ≡ throw e)) ⊎ ((a : A) × (o ≡ ok a))
Outcome-cases (throw e) = inl (e, refl)
Outcome-cases (ok a) = inr (a, refl)
