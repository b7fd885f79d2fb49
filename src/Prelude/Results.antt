-- ===== src/Prelude/Results.antt =====
-- A Go result `(value, error)`: the value, or the error.
use mathlib.Core.Path.{◌≡◌, refl}
use mathlib.Core.Logic.{◌⊎◌, inl, inr}
use mathlib.Core.Bool.{Bool}
use access_gateway.Prelude.Tests.{if◌then◌else◌}

pub data Result {ℓ κ} (E : Type ℓ) (A : Type κ) : Type (ℓ ⊔ κ) where
  err : E → Result E A
  ok : A → Result E A

-- `if !test { return e }`
abbrev pub guard {ℓ} : {E : Type ℓ} → Bool → E → Result E (Unit {0})
guard test e = if test then ok tt else err e

-- What comes after a value; an error is returned as it is.
abbrev pub ◌>>=◌ {ℓ κ μ} :
    {E : Type ℓ} {A : Type κ} {B : Type μ} → Result E A → (A → Result E B) → Result E B
first >>= second = elim first [ err e ↦ err e | ok a ↦ second a ]

infixl 5 ◌>>=◌
abbrev pub ◌>>◌ {ℓ κ} : {E : Type ℓ} {B : Type κ} → Result E (Unit {0}) → Result E B → Result E B
first >> second = first >>= (λ done. second)

infixl 5 ◌>>◌
-- A chain that gives a value has passed through a value.
pub >>=-eq-ok {ℓ κ μ} :
    {E : Type ℓ} {A : Type κ} {B : Type μ} (first : Result E A) (second : A → Result E B) {last : B}
    → (first >>= second) ≡ ok last
    → (middle : A) × (first ≡ ok middle) × (second middle ≡ ok last)
>>=-eq-ok (err stopped) second given = cc
>>=-eq-ok (ok middle) second given = (middle, refl, given)

pub Result-cases {ℓ κ} :
    {E : Type ℓ} {A : Type κ} (m : Result E A)
    → ((stopped : E) × (m ≡ err stopped)) ⊎ ((value : A) × (m ≡ ok value))
Result-cases (err stopped) = inl (stopped, refl)
Result-cases (ok value) = inr (value, refl)
