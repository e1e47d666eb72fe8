-- ===== src/Tools/Payable.antt =====
-- The tools of internal/mcp/tools_ap.go on the answers of the supplier ledger.
use cobalt_dingo.Prelude.{ℕ, Bool, Option, List, String, map, length, Result, ok, ◌>>=◌}
use cobalt_dingo.Prelude.Int.{ℤ, pos}
use cobalt_dingo.Dates.{Instant}
use cobalt_dingo.Ledger.{SupplierInvoice}
use cobalt_dingo.Analysis.{AgingReport, aging_buckets}
use cobalt_dingo.Analysis.Groups.{group_by, group_of, ordered_keys, nat_eq, string_eq}
use cobalt_dingo.Tools.{
  Float, Reading, SummaryResult, PartyGroup, OverdueInvoice, summary, by_party, overdue, of_party,
  find_invoice, currency_of, sum_amounts,
}

abbrev pub supplier_invoices : Reading SupplierInvoice
supplier_invoices = record {
  invoice_number = λ inv. inv.invoice_number;
  party_number = λ inv. inv.supplier_number;
  party_name = λ inv. inv.supplier_name;
  amount = λ inv. inv.amount;
  due_date = λ inv. inv.due_date;
}

abbrev pub Unpaid : Type 0
Unpaid = Result String (List SupplierInvoice)

module _ (float : Float) where
  open float use {F, from_minor}

  pub record CurrencyGroup : Type 0 where
    pub currency : String
    pub count : ℕ
    pub total : F

  unfoldable pub ap_summary : Unpaid → Result String (SummaryResult float)
  ap_summary unpaid = do invoices ← unpaid; ok (summary float supplier_invoices invoices)

  unfoldable pub ap_overdue :
      ((OverdueInvoice float → OverdueInvoice float → Bool)
        → List (OverdueInvoice float)
        → List (OverdueInvoice float))
      → ℤ
      → Instant
      → Unpaid
      → Result String (List (OverdueInvoice float))
  ap_overdue sort threshold today unpaid = do
    invoices ← unpaid
    ok (overdue float supplier_invoices sort threshold today invoices)

  unfoldable pub ap_by_supplier :
      ((PartyGroup float → PartyGroup float → Bool)
        → List (PartyGroup float)
        → List (PartyGroup float))
      → ℤ
      → Unpaid
      → Result String (List (PartyGroup float))
  ap_by_supplier sort limit unpaid = do
    invoices ← unpaid
    ok (by_party float supplier_invoices sort limit invoices)

  abbrev pub currency_group : List SupplierInvoice → String → CurrencyGroup
  currency_group invoices currency =
      let group : List SupplierInvoice =
        group_of currency (group_by invoices (currency_of supplier_invoices)) in
      record {
        currency = currency;
        count = length group;
        total = from_minor (sum_amounts supplier_invoices group (pos 0));
      }

  unfoldable pub ap_by_currency : Unpaid → Result String (List CurrencyGroup)
  ap_by_currency unpaid = do
    invoices ← unpaid
    ok (map (currency_group invoices) (ordered_keys invoices (currency_of supplier_invoices)))

unfoldable pub ap_aging : Instant → Unpaid → Result String AgingReport
ap_aging today unpaid = do
  invoices ← unpaid
  ok (aging_buckets (map (λ (inv : SupplierInvoice). inv.due_date) invoices) today)

-- `apSupplierHistoryHandler`: the supplier is asked for first.
unfoldable pub ap_supplier_history :
    {S : Type 0} → Result String S → ℕ → Unpaid → Result String (S × List SupplierInvoice)
ap_supplier_history supplier number unpaid = do
  detail ← supplier
  invoices ← unpaid
  ok (detail, of_party supplier_invoices number invoices)

-- `apInvoiceDetailHandler`
unfoldable pub ap_invoice_detail :
    {P : Type 0} → Unpaid → ℕ → Result String P → Result String (Option SupplierInvoice × P)
ap_invoice_detail unpaid number payments = do
  invoices ← unpaid
  paid ← payments
  ok (find_invoice supplier_invoices number invoices, paid)
