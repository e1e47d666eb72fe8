-- ===== src/Prelude/Actions.antt =====
-- Methods that act on a world and may fail. The world comes back beside the error too: what was
-- done before a failure stays done.
use mathlib.Core.Path.{◌≡◌, ap}
use mathlib.Core.Logic.{inl, inr}
use cobalt_dingo.Prelude.Results.{Result, ok, err, Result-cases}

abbrev pub Action : Type 0 → Type 0 → Type 0 → Type 0
Action W E A = W → Result E A × W

module _ {W E A : Type 0} where
  abbrev pub pure : A → Action W E A
  pure a w = (ok a, w)

  abbrev pub raise : E → Action W E A
  raise e w = (err e, w)

  -- The outcome of an action, its error as a value.
  abbrev pub attempt : {F : Type 0} → Action W E A → Action W F (Result E A)
  attempt m w = let (r, w') = m w in (ok r, w')

module _ {W E A B : Type 0} where
  abbrev pub continue : Result E A → (A → Action W E B) → Action W E B
  continue (ok a) f w = f a w
  continue (err e) f w = (err e, w)

  -- `x ← m; rest`, under its own name, since `do` binds plain results.
  abbrev pub and_then : Action W E A → (A → Action W E B) → Action W E B
  and_then m f w = let (r, w') = m w in continue r f w'

-- A call whose error is wrapped and returned at once: when the whole succeeds, the call did.
pub and_then-ok :
    {W E F A B : Type 0} (m : Action W E A) (g : E → F) (f : A → Action W F B) (w w' : W) (b : B)
    → and_then (attempt m) (λ r. elim r [ err e ↦ raise (g e) | ok a ↦ f a ]) w ≡ (ok b, w')
    → (a : A) × (w1 : W) × (m w ≡ (ok a, w1)) × (f a w1 ≡ (ok b, w'))
and_then-ok {A = A} m g f w w' b e = elim (Result-cases (m w).0) [
  | inl (x, q) ↦ let bad = rw q at e in cc
  | inr (a, q) ↦ (a, (m w).1, ap (λ (r : Result _ A). (r, (m w).1)) q, rw q at e)
]
