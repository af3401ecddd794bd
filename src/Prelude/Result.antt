-- ===== src/Prelude/Result.antt =====
-- What throws: a value, or the error that was thrown.
use mathlib.Core.Path.{◌≡◌, refl, ap}
use mathlib.Core.Bool.{Bool, true, false}
use mathlib.Core.Option.{Option, none, some}
use mathlib.Core.List.{List, [], ◌∷◌}
use mathlib.Core.Logic.{◌⊎◌, inl, inr}
use attendence_system.Prelude.Tests.{if◌then◌else◌}

pub data Result {ℓ κ} (E : Type κ) (A : Type ℓ) : Type (ℓ ⊔ κ) where
  ok : A → Result E A
  err : E → Result E A

infixl 5 ◌>>=◌ ◌>>◌
abbrev pub ◌>>=◌ {ℓ κ μ} :
    {E : Type κ} {A : Type ℓ} {B : Type μ} → Result E A → (A → Result E B) → Result E B
ok a >>= f = f a
err e >>= f = err e

abbrev pub ◌>>◌ {ℓ κ μ} :
    {E : Type κ} {A : Type ℓ} {B : Type μ} → Result E A → Result E B → Result E B
m >> k = m >>= λ _. k

-- `if (bad) throw e`
abbrev pub throw_if {κ} : {E : Type κ} → Bool → E → Result E (Unit {0})
throw_if true e = err e
throw_if false e = ok tt

abbrev pub or_throw {ℓ κ} : {E : Type κ} {A : Type ℓ} → Option A → E → Result E A
or_throw none e = err e
or_throw (some a) e = ok a

-- `xs.map(f)`, where `f` may throw
abbrev pub map_ok {ℓ κ μ} :
    {E : Type κ} {A : Type ℓ} {B : Type μ} → (A → Result E B) → List A → Result E (List B)
map_ok f [] = ok []
map_ok f (x ∷ xs) = let rest = map_ok f xs in f x >>= λ y. rest >>= λ ys. ok (y ∷ ys)

pub Result-cases {ℓ κ} :
    {E : Type κ} {A : Type ℓ} (r : Result E A) → ((a : A) × (r ≡ ok a)) ⊎ ((e : E) × (r ≡ err e))
Result-cases (ok a) = inl (a, refl)
Result-cases (err e) = inr (e, refl)

pub ok-injective {ℓ κ} :
    {E : Type κ} {A : Type ℓ} {a b : A} → ◌≡◌ {A = Result E A} (ok a) (ok b) → a ≡ b
ok-injective {a} h = ap (λ r. elim r [ ok x ↦ x | err e ↦ a ]) h

pub or_throw-eq_ok {ℓ κ} :
    {E : Type κ} {A : Type ℓ} (o : Option A) (e : E) {a : A} → or_throw o e ≡ ok a → o ≡ some a
or_throw-eq_ok none e h = cc
or_throw-eq_ok (some b) e h = cc

-- The inversion as a rule, for long chains.
pub >>=-elim {ℓ κ μ ν} :
    {E : Type κ} {A : Type ℓ} {B : Type μ} (m : Result E A) (f : A → Result E B) {b : B}
    {P : Type ν}
    → (m >>= f) ≡ ok b
    → ((a : A) → m ≡ ok a → f a ≡ ok b → P)
    → P
>>=-elim (ok a) f h then' = then' a refl h
>>=-elim (err e) f h then' = cc

-- The same, as a triple.
pub >>=-eq-ok {ℓ κ μ} :
    {E : Type κ} {A : Type ℓ} {B : Type μ} (step : Result E A) (next : A → Result E B) {out : B}
    → (step >>= next) ≡ ok out
    → record { 0 as mid : A; 1 : step ≡ ok mid; 2 : next mid ≡ ok out }
>>=-eq-ok step next h = >>=-elim step next h λ mid e f. (mid, e, f)

pub throw_if-elim {κ μ ν} :
    {E : Type κ} {B : Type μ} (bad : Bool) (e : E) (m : Result E B) {b : B} {P : Type ν}
    → (throw_if bad e >> m) ≡ ok b
    → (bad ≡ false → m ≡ ok b → P)
    → P
throw_if-elim true e m h then' = cc
throw_if-elim false e m h then' = then' refl h

-- The same for a test in front of an early `throw`.
pub guard-elim {κ μ ν} :
    {E : Type κ} {B : Type μ} (bad : Bool) (e : E) (m : Result E B) {b : B} {P : Type ν}
    → (if bad then err e else m) ≡ ok b
    → (bad ≡ false → m ≡ ok b → P)
    → P
guard-elim true e m h then' = cc
guard-elim false e m h then' = then' refl h

pub throw_if-ok {κ} :
    {E : Type κ} (bad : Bool) (e : E) {u : Unit {0}} → throw_if bad e ≡ ok u → bad ≡ false
throw_if-ok true e h = cc
throw_if-ok false e h = refl
