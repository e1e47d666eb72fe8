-- ===== src/Tools/Receivable.antt =====
-- The tools of internal/mcp/tools_ar.go on the answers of the customer ledger.
use cobalt_dingo.Prelude.{
  ℕ, Bool, Option, none, some, List, [], ◌∷◌, ◌==◌, if◌then◌else◌, String, map, Result, ok, err,
  ◌>>=◌,
}
use cobalt_dingo.Prelude.Int.{ℤ, pos, leb_ℤ, ltb_ℤ}
use cobalt_dingo.Dates.{Instant}
use cobalt_dingo.Ledger.{CustomerInvoice}
use cobalt_dingo.Analysis.{AgingReport, aging_buckets, days_overdue}
use cobalt_dingo.Tools.{
  Float, Reading, SummaryResult, PartyGroup, OverdueInvoice, summary, by_party, overdue, of_party,
  find_invoice,
}

abbrev pub customer_invoices : Reading CustomerInvoice
customer_invoices = record {
  invoice_number = λ inv. inv.invoice_number;
  party_number = λ inv. inv.customer_number;
  party_name = λ inv. inv.customer_name;
  amount = λ inv. inv.amount;
  due_date = λ inv. inv.due_date;
}

abbrev pub Unpaid : Type 0
Unpaid = Result String (List CustomerInvoice)

module _ (float : Float) where
  unfoldable pub ar_summary : Unpaid → Result String (SummaryResult float)
  ar_summary unpaid = do invoices ← unpaid; ok (summary float customer_invoices invoices)

  unfoldable pub ar_overdue :
      ((OverdueInvoice float → OverdueInvoice float → Bool)
        → List (OverdueInvoice float)
        → List (OverdueInvoice float))
      → ℤ
      → Instant
      → Unpaid
      → Result String (List (OverdueInvoice float))
  ar_overdue sort threshold today unpaid = do
    invoices ← unpaid
    ok (overdue float customer_invoices sort threshold today invoices)

  unfoldable pub ar_by_customer :
      ((PartyGroup float → PartyGroup float → Bool)
        → List (PartyGroup float)
        → List (PartyGroup float))
      → ℤ
      → Unpaid
      → Result String (List (PartyGroup float))
  ar_by_customer sort limit unpaid = do
    invoices ← unpaid
    ok (by_party float customer_invoices sort limit invoices)

unfoldable pub ar_aging : Instant → Unpaid → Result String AgingReport
ar_aging today unpaid = do
  invoices ← unpaid
  ok (aging_buckets (map (λ (inv : CustomerInvoice). inv.due_date) invoices) today)

-- `arCustomerHistoryHandler`: the customer is asked for first.
unfoldable pub ar_customer_history :
    {S : Type 0} → Result String S → ℕ → Unpaid → Result String (S × List CustomerInvoice)
ar_customer_history customer number unpaid = do
  detail ← customer
  invoices ← unpaid
  ok (detail, of_party customer_invoices number invoices)

-- `arInvoiceDetailHandler`
unfoldable pub ar_invoice_detail :
    {P : Type 0} → Unpaid → ℕ → Result String P → Result String (Option CustomerInvoice × P)
ar_invoice_detail unpaid number payments = do
  invoices ← unpaid
  paid ← payments
  ok (find_invoice customer_invoices number invoices, paid)

-- The details of a customer that the unpaid report names.
pub record Contact : Type 0 where
  pub email : String
  pub phone : String

-- `customerCache`, and the answer of the ledger or the empty contact of an unknown customer.
abbrev pub or_blank : Result String Contact → Contact
or_blank (ok contact) = contact
or_blank (err e) = record { email = ""; phone = "" }

abbrev pub cached_or :
    Option Contact → Result String Contact → ℕ → List (ℕ × Contact) → Contact × List (ℕ × Contact)
cached_or (some contact) answer number cache = (contact, cache)
cached_or none answer number cache = (or_blank answer, (number, or_blank answer) ∷ cache)

unfoldable pub find_contact : ℕ → List (ℕ × Contact) → Option Contact
find_contact number [] = none
find_contact number ((n, contact) ∷ cache) =
    if n == number then some contact else find_contact number cache

module _ (float : Float) where
  open float use {F, from_minor}

  pub record UnpaidEntry : Type 0 where
    pub invoice_number : ℕ
    pub customer_number : ℕ
    pub customer_name : String
    pub email : String
    pub phone : String
    pub currency : String
    pub amount : F
    pub due_date : String
    pub days_overdue : ℤ

  abbrev pub unpaid_entry : CustomerInvoice → Contact → ℤ → UnpaidEntry
  unpaid_entry inv contact days = record {
    invoice_number = inv.invoice_number;
    customer_number = inv.customer_number;
    customer_name = inv.customer_name;
    email = contact.email;
    phone = contact.phone;
    currency = inv.amount.currency;
    amount = from_minor inv.amount.minor_units;
    due_date = inv.due_date;
    days_overdue = days;
  }

  unfoldable pub unpaid_entries :
      (ℕ → Result String Contact)
      → Instant
      → List CustomerInvoice
      → List (ℕ × Contact)
      → List UnpaidEntry
  unpaid_entries detail today [] cache = []
  unpaid_entries detail today (inv ∷ invoices) cache =
      let days : ℤ = days_overdue inv.due_date today in
      let number : ℕ = inv.customer_number in
      let (contact, cache') = cached_or (find_contact number cache) (detail number) number cache in
      let skipped = unpaid_entries detail today invoices cache in
      let rest = unpaid_entries detail today invoices cache' in
      if leb_ℤ days (pos 0) then skipped else unpaid_entry inv contact days ∷ rest

  abbrev pub longer_overdue : UnpaidEntry → UnpaidEntry → Bool
  longer_overdue a b = ltb_ℤ b.days_overdue a.days_overdue

  -- `arUnpaidReportHandler`
  unfoldable pub ar_unpaid_report :
      ((UnpaidEntry → UnpaidEntry → Bool) → List UnpaidEntry → List UnpaidEntry)
      → (ℕ → Result String Contact)
      → Instant
      → Unpaid
      → Result String (List UnpaidEntry)
  ar_unpaid_report sort detail today unpaid = do
    invoices ← unpaid
    ok (sort longer_overdue (unpaid_entries detail today invoices []))
