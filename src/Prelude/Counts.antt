-- ===== src/Prelude/Counts.antt =====
-- Lists by counting: how many entries pass a test.
use Prim.Native.Nat.{ℕ, ◌+◌}
use mathlib.Core.Path.{◌≡◌, refl, ap}
use mathlib.Core.Bool.{Bool, true, false}
use mathlib.Core.List.{List, [], ◌∷◌, ◌++◌, map}
use native.Mathlib.Omega.{arith}
use cobalt_dingo.Prelude.Lists.{length}

-- How many entries pass a test.
abbrev pub weight : Bool → ℕ
weight true = 1
weight false = 0

abbrev pub count {ℓ} : {A : Type ℓ} → (A → Bool) → List A → ℕ
count p [] = 0
count p (x ∷ xs) = weight (p x) + count p xs

pub count-append {ℓ} :
    {A : Type ℓ} (p : A → Bool) (xs ys : List A) → count p (xs ++ ys) ≡ count p xs + count p ys
count-append p [] ys = omega arith
count-append p (x ∷ xs) ys = omega (arith, count-append p xs ys)

pub count-map :
    {A B : Type 0} (f : A → B) (q : B → Bool) (xs : List A)
    → count q (map f xs) ≡ count (λ x. q (f x)) xs
count-map f q [] = refl
count-map f q (x ∷ xs) = ap (λ n. weight (q (f x)) + n) (count-map f q xs)

pub count-length : {A : Type 0} (xs : List A) → count (λ x. true) xs ≡ length xs
count-length [] = refl
count-length (x ∷ xs) = omega (arith, count-length xs)
