-- ===== src/Prelude/Options.antt =====
-- Go's `if err != nil { return … }` on results that may fail.
use mathlib.Core.Path.{◌≡◌, refl}
use mathlib.Core.Option.{Option, none, some}

infixl 1 ◌>>=◌
abbrev pub ◌>>=◌ {ℓ κ} : {A : Type ℓ} {B : Type κ} → Option A → (A → Option B) → Option B
none >>= f = none
some a >>= f = f a

-- A chain that succeeds does so at its first step.
pub record Chained {ℓ κ} {A : Type ℓ} {B : Type κ} (m : Option A) (f : A → Option B) (b : B)
    : Type (ℓ ⊔ κ) where
  pub value : A
  pub step : m ≡ some value
  pub rest : f value ≡ some b

pub >>=-some {ℓ κ} :
    {A : Type ℓ} {B : Type κ} (m : Option A) (f : A → Option B) (b : B)
    → (m >>= f) ≡ some b
    → Chained m f b
>>=-some none f b e = absurd cc
>>=-some (some a) f b e = record { value = a; step = refl; rest = e }
