-- ===== src/InvoiceStates/Tests.antt =====
-- A supplier ledger that was counted and is settled.
use cobalt_dingo.Prelude.{◌≡◌, refl, [], ◌∷◌}
use cobalt_dingo.InvoiceStates.{InvoiceStates, settled, find, entries, conclude, assess}

abbrev states : InvoiceStates
states = record {
  supplier =
      record { filter = "unbooked"; count = 0 } ∷ record { filter = "fullypaid"; count = 4 } ∷ [];
  customer = [];
}

is_settled : (assess states).0 ≡ settled
unfolding assess conclude entries find
is_settled = refl
