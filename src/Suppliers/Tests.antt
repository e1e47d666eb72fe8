-- ===== src/Suppliers/Tests.antt =====
-- Two tenants with a supplier of the same number, asked for in turn.
use cobalt_dingo.Prelude.{
  ℕ, suc, ◌≡◌, refl, List, [], ◌∷◌, none, All, String, str_eq, if◌then◌else◌, ok,
}
use cobalt_dingo.Prelude.Int.{pos, ◌+ℤ◌}
use cobalt_dingo.Suppliers.{
  Enricher, Call, details, forget, Answer, run_calls, supplier_payment_details,
}
use cobalt_dingo.Suppliers.Cached.{AnswerGiven, run_calls-AnswerGiven}

-- The world is the number of questions that reached the enricher inside.
abbrev enricher : Enricher ℕ
enricher = record {
  inner = λ tenant supplier w. (ok (if str_eq tenant "a" then "SE1" else "SE2", "B"), suc w);
  now = λ w. (pos 10, w);
  ttl = pos 5;
}

abbrev calls : List Call
calls = details "a" 7 ∷ details "b" 7 ∷ details "a" 7 ∷ forget "a" 7 ∷ details "a" 7 ∷ []

abbrev answer : String → String → Answer
answer tenant iban = record { tenant = tenant; supplier = 7; result = ok (iban, "B") }

answers :
    run_calls enricher calls ((λ t n. none), 0)
    ≡ answer "a" "SE1" ∷ answer "b" "SE2" ∷ answer "a" "SE1" ∷ answer "a" "SE1" ∷ []
unfolding run_calls supplier_payment_details ◌+ℤ◌
answers = refl

-- What the enricher inside gives in some world.
abbrev Given : String → ℕ → String × String → Type 0
Given tenant supplier d = (w : ℕ) × (w1 : ℕ) × (enricher.inner tenant supplier w ≡ (ok d, w1))

run_calls-AnswerGiven_example :
    All
      (AnswerGiven enricher Given (λ t n d w w1 e. (w, w1, e)))
      (run_calls enricher calls ((λ t n. none), 0))
run_calls-AnswerGiven_example =
    run_calls-AnswerGiven enricher Given (λ t n d w w1 e. (w, w1, e)) calls 0
