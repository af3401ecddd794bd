-- ===== src/Prelude/Maybe.antt =====
-- Chains of optional values.
use mathlib.Core.Path.{◌≡◌, refl}
use mathlib.Core.Option.{Option, none, some}

infixl 5 ◌>>=◌
abbrev pub ◌>>=◌ {ℓ κ} : {A : Type ℓ} {B : Type κ} → Option A → (A → Option B) → Option B
none >>= f = none
some a >>= f = f a

pub >>=-eq_some {ℓ κ μ} :
    {A : Type ℓ} {B : Type κ} (o : Option A) (f : A → Option B) {b : B} {P : Type μ}
    → (o >>= f) ≡ some b
    → ((a : A) → o ≡ some a → f a ≡ some b → P)
    → P
>>=-eq_some none f h k = cc
>>=-eq_some (some a) f h k = k a refl h
