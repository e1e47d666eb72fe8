-- ===== src/Prelude/Results.antt =====
-- A Go pair of a value and an `error`: one of the two, since every caller tests the error first.
use mathlib.Core.Path.{◌≡◌, refl, ap}
use mathlib.Core.Bool.{Bool, true, false}
use mathlib.Core.Logic.{◌⊎◌, inl, inr}

pub data Result {ℓ κ} (E : Type ℓ) (A : Type κ) : Type (ℓ ⊔ κ) where
  ok : A → Result E A
  err : E → Result E A

-- The code after a call, which runs on its value and is skipped on its error.
infixl 5 ◌>>=◌ ◌>>◌
abbrev pub ◌>>=◌ {ε α β} :
    {E : Type ε} {A : Type α} {B : Type β} → Result E A → (A → Result E B) → Result E B
err failure >>= rest = err failure
ok value >>= rest = rest value

-- The same after a check, which has no value.
abbrev pub ◌>>◌ {ε β} : {E : Type ε} {B : Type β} → Result E (Unit {0}) → Result E B → Result E B
check >> rest = check >>= λ passed. rest

-- An early return of an error.
abbrev pub fail_if {ℓ} : {E : Type ℓ} → Bool → E → Result E (Unit {0})
fail_if true e = err e
fail_if false e = ok tt

-- The same failure, wrapped as `fmt.Errorf("…: %w", err)` does.
abbrev pub wrap_err {ℓ κ μ} :
    {E : Type ℓ} {F : Type κ} {A : Type μ} → (E → F) → Result E A → Result F A
wrap_err f (ok a) = ok a
wrap_err f (err e) = err (f e)

-- Code that ends well had a call that ended well.
pub >>=-eq-ok {ε α β} :
    {E : Type ε} {A : Type α} {B : Type β} (call : Result E A) (rest : A → Result E B) {result : B}
    → (call >>= rest) ≡ ok result
    → (value : A) × (call ≡ ok value) × (rest value ≡ ok result)
>>=-eq-ok (err failure) rest ended = cc
>>=-eq-ok (ok value) rest ended = (value, refl, ended)

abbrev ok_or {ℓ κ} : {E : Type ℓ} {A : Type κ} → A → Result E A → A
ok_or d (ok a) = a
ok_or d (err e) = d

pub ok-injective {ℓ κ} :
    {E : Type ℓ} {A : Type κ} (a b : A) → ◌≡◌ {A = Result E A} (ok a) (ok b) → a ≡ b
ok-injective a b e = ap (ok_or a) e

-- To split on a computed result and keep the equation.
pub Result-cases {ℓ κ} :
    {E : Type ℓ} {A : Type κ} (r : Result E A) → ((e : E) × (r ≡ err e)) ⊎ ((a : A) × (r ≡ ok a))
Result-cases (ok a) = inr (a, refl)
Result-cases (err e) = inl (e, refl)
