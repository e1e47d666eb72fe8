-- ===== src/Tools/Ranks.antt =====
-- The tools of internal/mcp/tools_analytics.go on unpaid invoices: the forecast of the cash flow and
-- the rankings of customers and suppliers. The three maps of a ranking have the same keys, so they
-- are one association list.
use cobalt_dingo.Prelude.{
  ℕ, suc, Bool, false, ◌&&◌, Option, none, some, List, [], ◌∷◌, String, if◌then◌else◌, Result, ok,
  err, ◌>>=◌, ◌==◌,
}
use cobalt_dingo.Prelude.Int.{ℤ, leb_ℤ}
use cobalt_dingo.Dates.{Instant, parse_date}
use cobalt_dingo.Money.{Money}
use cobalt_dingo.Ledger.{CustomerInvoice, SupplierInvoice}
use cobalt_dingo.Tools.{Float, cut_to, Reading}
use cobalt_dingo.Tools.Payable.{supplier_invoices}
use cobalt_dingo.Tools.Receivable.{customer_invoices}
use cobalt_dingo.Tools.Periods.{parse_arg, ToolError, no_invoices}

module _ (float : Float) where
  open float use {F, zero_float, from_minor, add, sub, greater}

  -- A total with the number of its invoices.
  pub record Flow : Type 0 where
    pub total : F
    pub count : ℕ

  abbrev pub is_due : Instant → Option Instant → Bool
  is_due horizon none = false
  is_due horizon (some due) = leb_ℤ due horizon

  -- The loop over the invoices of one side, with the amount that it reads.
  unfoldable pub flow_of :
      {Inv : Type 0} → (Inv → String) → (Inv → Money) → Instant → List Inv → Flow → Flow
  flow_of due amount horizon [] flow = flow
  flow_of due amount horizon (inv ∷ invoices) flow = flow_of due amount horizon invoices (
      if is_due horizon (parse_date (due inv))
      then record {
        total = add flow.total (from_minor (amount inv).minor_units);
        count = suc flow.count;
      }
      else flow)

  pub record CashFlow : Type 0 where
    pub inflows : Flow
    pub outflows : Flow
    pub net_flow : F
    pub horizon_days : ℤ

  abbrev pub no_flow : Flow
  no_flow = record { total = zero_float; count = 0 }

  -- `cashFlowForecastHandler`; `horizon` is today and so many days.
  unfoldable pub cash_flow_forecast :
      (ℤ → Instant)
      → ℤ
      → Result String (List SupplierInvoice)
      → Result String (List CustomerInvoice)
      → Result String CashFlow
  cash_flow_forecast horizon days payable receivable = do
    ap_invoices ← payable
    ar_invoices ← receivable
    let outflows =
        flow_of (λ (inv : SupplierInvoice). inv.due_date) (λ (inv : SupplierInvoice). inv.amount)
          (horizon days) ap_invoices no_flow
    let inflows =
        flow_of (λ (inv : CustomerInvoice). inv.due_date) (λ (inv : CustomerInvoice). inv.balance)
          (horizon days) ar_invoices no_flow
    ok (record {
      inflows = inflows;
      outflows = outflows;
      net_flow = sub inflows.total outflows.total;
      horizon_days = days;
    })

  -- `customerRank` and `supplierRank`
  pub record Rank : Type 0 where
    pub number : ℕ
    pub name : String
    pub count : ℕ
    pub total : F

  -- `totals[n] += a; counts[n]++; names[n] = name`
  unfoldable pub add_rank : ℕ → String → F → List Rank → List Rank
  add_rank number name amount [] =
      record { number = number; name = name; count = 1; total = add zero_float amount } ∷ []
  add_rank number name amount (r ∷ ranks) =
      let rest = add_rank number name amount ranks in
      if r.number == number
      then record r { name = name; count = suc r.count; total = add r.total amount } ∷ ranks
      else r ∷ rest

  abbrev pub in_window : Instant → Instant → Option Instant → Bool
  in_window from to none = false
  in_window from to (some t) = leb_ℤ from t && leb_ℤ t to

  unfoldable pub rank_invoices :
      {Inv : Type 0}
      → Reading Inv
      → (Inv → String)
      → Instant
      → Instant
      → List Inv
      → List Rank
      → List Rank
  rank_invoices r date from to [] ranks = ranks
  rank_invoices r date from to (inv ∷ invoices) ranks = rank_invoices r date from to invoices (
      if in_window from to (parse_date (date inv))
      then add_rank (r.party_number inv) (r.party_name inv) (from_minor (r.amount inv).minor_units)
          ranks
      else ranks)

  abbrev pub before_rank : Rank → Rank → Bool
  before_rank a b = greater a.total b.total

  abbrev pub unpaid_of : {Inv : Type 0} → Result String (List Inv) → Result ToolError (List Inv)
  unpaid_of (err e) = err (no_invoices e)
  unpaid_of (ok invoices) = ok invoices

  -- What both rankings do. `sort` is `sort.Slice` on the entries of the map, in any order.
  unfoldable pub top_of :
      {Inv : Type 0}
      → Reading Inv
      → (Inv → String)
      → ((Rank → Rank → Bool) → List Rank → List Rank)
      → ℤ
      → String
      → String
      → Result String (List Inv)
      → Result ToolError (List Rank)
  top_of r date sort limit from_text to_text unpaid = do
    from ← parse_arg "from_date" from_text
    to ← parse_arg "to_date" to_text
    invoices ← unpaid_of unpaid
    ok (cut_to limit (sort before_rank (rank_invoices r date from to invoices [])))

  -- `topCustomersHandler`, by the date of the invoice
  unfoldable pub top_customers :
      ((Rank → Rank → Bool) → List Rank → List Rank)
      → ℤ
      → String
      → String
      → Result String (List CustomerInvoice)
      → Result ToolError (List Rank)
  top_customers = top_of customer_invoices (λ (inv : CustomerInvoice). inv.invoice_date)

  -- `topSuppliersHandler`, by the due date
  unfoldable pub top_suppliers :
      ((Rank → Rank → Bool) → List Rank → List Rank)
      → ℤ
      → String
      → String
      → Result String (List SupplierInvoice)
      → Result ToolError (List Rank)
  top_suppliers = top_of supplier_invoices (λ (inv : SupplierInvoice). inv.due_date)
