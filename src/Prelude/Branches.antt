-- ===== src/Prelude/Branches.antt =====
-- Proofs by the cases of a test, for goals whose types are definitions.
use pine_framework.Prelude.Tests.{if◌then◌else◌}
use mathlib.Core.Path.{◌≡◌, refl}
use mathlib.Core.Bool.{Bool, true, false}
use mathlib.Core.Option.{Option, none, some}

-- A property of both branches of a test, each under the test's outcome.
pub if-elim {ℓ κ} :
    {A : Type ℓ}
    → (P : A → Type κ) (b : Bool) (x y : A) → (b ≡ true → P x)
    → (b ≡ false → P y)
    → P (if b then x else y)
if-elim P true x y f g = f refl
if-elim P false x y f g = g refl

-- A property of both cases of an option.
pub option-elim {ℓ κ μ} :
    {A : Type ℓ} {B : Type μ}
    → (P : A → Type κ) (o : Option B) (x : A) (f : B → A) → P x
    → ((b : B) → o ≡ some b → P (f b))
    → P (elim o [ none ↦ x | some b ↦ f b ])
option-elim P none x f hx hf = hx
option-elim P (some b) x f hx hf = hf b refl
