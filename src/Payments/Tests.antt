-- ===== src/Payments/Tests.antt =====
-- A file of two invoices in two currencies.
use cobalt_dingo.Prelude.{
  ℕ, ◌≡◌, refl, Bool, true, false, Option, none, some, List, [], ◌∷◌, map, length, String, All,
  arith, ok,
}
use cobalt_dingo.Prelude.Int.{ℤ, pos}
use cobalt_dingo.Invoices.{EnrichedInvoice}
use cobalt_dingo.Payments.{
  Formats, Debtor, Transfer, PmtInf, Document, group, group_all, check_positive, transfer,
  build_pmt_inf, build_blocks, build_document, sum_amounts, generate,
}
use cobalt_dingo.Prelude.Counts.{count}
use cobalt_dingo.Payments.Complete.{IsPositive, count_blocks, announced, generate_complete}

-- Amounts in minor units in place of floats, all printed alike.
abbrev formats : Formats ℤ
formats = record {
  zero = pos 0;
  add = λ a b. a;
  float = λ m. m.minor_units;
  amount = λ x. "1.00";
  decimal = λ n. "7";
  two_digits = λ n. "01";
}

abbrev bill : String → EnrichedInvoice
bill currency = record {
  invoice = record {
    invoice_number = 7;
    supplier_number = 3;
    supplier_name = "s";
    supplier_reference = "r";
    amount = record { minor_units = pos 100; currency = currency };
    balance = record { minor_units = pos 100; currency = currency };
    due_date = "2026-02-01";
    booked = true;
    cancelled = false;
  };
  iban = "SE1";
  bic = "B";
}

abbrev bills : List EnrichedInvoice
bills = bill "EUR" ∷ bill "USD" ∷ bill "EUR" ∷ []

abbrev debtor : Debtor
debtor = record { name = "d"; iban = "SE2"; bic = "C" }

All-IsPositive : All IsPositive bills
All-IsPositive = (omega arith, (omega arith, (omega arith, tt)))

generate_complete_example :
    (doc : Document) × (generate formats bills debtor "m" "now" ≡ ok doc)
    × ((q : Transfer → Bool) → count_blocks q doc.blocks ≡ count q (map (transfer formats) bills))
    × (announced doc.blocks ≡ doc.nb_of_txs)
    × (doc.nb_of_txs ≡ length bills)
generate_complete_example = generate_complete formats debtor bills "m" "now" refl All-IsPositive

abbrev block : String → Option String → ℕ → List EnrichedInvoice → PmtInf
block ccy level n l = record {
  pmt_inf_id = "PMINF-01";
  method = "TRF";
  nb_of_txs = n;
  ctrl_sum = "1.00";
  service_level = level;
  reqd_exctn_dt = "2026-02-01";
  debtor = debtor;
  transfers = map (transfer formats) l;
}

abbrev file : Document
file = record {
  msg_id = "m";
  created = "now";
  nb_of_txs = 3;
  ctrl_sum = "1.00";
  initiator = "d";
  blocks =
      block "EUR" (some "SEPA") 2 (bill "EUR" ∷ bill "EUR" ∷ [])
      ∷ block "USD" none 1 (bill "USD" ∷ [])
      ∷ [];
}

generated : generate formats bills debtor "m" "now" ≡ ok file
unfolding generate check_positive build_document build_blocks build_pmt_inf group_all group
    sum_amounts
generated = refl
