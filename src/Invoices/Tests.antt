-- ===== src/Invoices/Tests.antt =====
-- A queue of two invoices, of which one supplier has no account.
use cobalt_dingo.Prelude.{
  ℕ, ◌≡◌, refl, true, false, List, [], ◌∷◌, String, ◌==◌, if◌then◌else◌, Result, ok,
}
use cobalt_dingo.Prelude.Int.{pos}
use cobalt_dingo.Ledger.{SupplierInvoice}
use cobalt_dingo.Invoices.{enrich_from, enrich}

abbrev invoice : ℕ → String → SupplierInvoice
invoice n currency = record {
  invoice_number = n;
  supplier_number = n;
  supplier_name = "s";
  supplier_reference = "r";
  amount = record { minor_units = pos 100; currency = currency };
  balance = record { minor_units = pos 100; currency = currency };
  due_date = "2026-02-01";
  booked = true;
  cancelled = false;
}

abbrev source : List SupplierInvoice
source = invoice 1 "EUR" ∷ invoice 2 "SEK" ∷ invoice 3 "USD" ∷ []

abbrev lookup : ℕ → Result String (String × String)
lookup n = ok (if n == 1 then "SE1" else "", "B")

enriched :
    enrich lookup source ≡ ok (record { invoice = invoice 1 "EUR"; iban = "SE1"; bic = "B" } ∷ [])
unfolding enrich enrich_from
enriched = refl
