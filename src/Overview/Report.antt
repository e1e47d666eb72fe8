-- ===== src/Overview/Report.antt =====
-- The second half of `BuildFinancialOverview`: closing balances, the totals by account class, the
-- stable order of the positions, receivables and payables; and `WithAgeing`.
use cobalt_dingo.Prelude.{
  ℕ, Bool, List, [], ◌∷◌, String, ltb, leb, ◌==◌, if◌then◌else◌, ok, ◌>>=◌, ◌>>◌, length, not,
}
use cobalt_dingo.Prelude.Int.{ℤ, pos, eqb_ℤ}
use cobalt_dingo.Prelude.Int64.{add64, sub64, neg64}
use cobalt_dingo.Dates.{Instant}
use cobalt_dingo.Money.{Money, assert_currency}
use cobalt_dingo.Ledger.{Account, CustomerInvoice, SupplierInvoice}
use cobalt_dingo.Vouchers.{VoucherSet, CacheFreshness, Reason}
use cobalt_dingo.Overview.Ageing.{Ageing, no_ageing, age_receivables, age_payables}
use cobalt_dingo.Overview.{
  Checked, customer_invoice, supplier_invoice, currency, result_transfer_account, AccountPosition,
  UnbalancedVoucher, Acc, Accs, read_chart, post_vouchers, sek,
}

-- The running totals, in the debit-positive sign.
pub record Totals : Type 0 where
  pub assets : ℤ
  pub eq_liab : ℤ
  pub revenue : ℤ
  pub costs : ℤ
  pub result_transferred : ℤ
  pub total : ℤ

abbrev pub no_totals : Totals
no_totals = record {
  assets = pos 0;
  eq_liab = pos 0;
  revenue = pos 0;
  costs = pos 0;
  result_transferred = pos 0;
  total = pos 0;
}

abbrev pub closing : Acc → ℤ
closing a = sub64 (add64 a.opening a.debit) a.credit

abbrev pub position : ℕ → Acc → AccountPosition
position number a = record {
  number = number;
  description = a.description;
  opening = sek a.opening;
  debit = sek a.debit;
  credit = sek a.credit;
  closing = sek (closing a);
}

-- The `switch` over the BAS account classes, and `total += closing` before it.
unfoldable pub add_closing : ℕ → ℤ → Totals → Totals
add_closing number c t =
    let u : Totals = record t { total = add64 t.total c } in
    if ltb number 2000
    then record u { assets = add64 t.assets c }
    else if ltb number 3000
    then record u { eq_liab = add64 t.eq_liab c }
    else if ltb number 4000
    then record u { revenue = add64 t.revenue c }
    else if number == result_transfer_account
    then record u { result_transferred = add64 t.result_transferred c }
    else record u { costs = add64 t.costs c }

-- The loop over `byNumber`: accounts with no opening balance and no movement are skipped.
unfoldable pub total_accounts : Accs → Totals → Totals
total_accounts [] t = t
total_accounts ((n, a) ∷ m) t = total_accounts m (if a.seen then add_closing n (closing a) t else t)

unfoldable pub positions_of : Accs → List AccountPosition
positions_of [] = []
positions_of ((n, a) ∷ m) =
    let rest = positions_of m in if a.seen then position n a ∷ rest else rest

-- `sort.Slice` by number. The numbers differ, so that every sort gives the same list.
unfoldable pub insert_position : AccountPosition → List AccountPosition → List AccountPosition
insert_position p [] = p ∷ []
insert_position p (q ∷ qs) = if leb p.number q.number then p ∷ q ∷ qs else q ∷ insert_position p qs

unfoldable pub sort_positions : List AccountPosition → List AccountPosition
unfolding insert_position
sort_positions [] = []
sort_positions (p ∷ ps) = insert_position p (sort_positions ps)

unfoldable pub add_receivables : List CustomerInvoice → ℤ → Checked ℤ
add_receivables [] n = ok n
add_receivables (i ∷ is) n =
    assert_currency i.balance currency (customer_invoice i.invoice_number)
    >> add_receivables is (add64 n i.balance.minor_units)

-- A cancelled invoice is skipped before its currency is looked at.
unfoldable pub add_payables : List SupplierInvoice → ℤ → Checked ℤ
add_payables [] n = ok n
add_payables (i ∷ is) n =
    let skip = add_payables is n in
    let take =
      assert_currency i.balance currency (supplier_invoice i.invoice_number)
      >> add_payables is (add64 n i.balance.minor_units) in
    if i.cancelled then skip else take

pub record FinancialOverview : Type 0 where
  pub year : ℕ
  pub currency : String
  pub as_of : Instant
  pub freshness : CacheFreshness
  pub reason : Reason
  pub positions : List AccountPosition
  pub unbalanced_vouchers : List UnbalancedVoucher
  pub voucher_count : ℕ
  pub assets : Money
  pub equity_and_liabilities : Money
  pub revenue : Money
  pub costs : Money
  pub result : Money
  pub result_transferred : Money
  pub discrepancy : Money
  pub receivables : Money
  pub payables : Money
  pub receivables_ageing : Ageing
  pub payables_ageing : Ageing
  pub receivable_invoices : List CustomerInvoice
  pub payable_invoices : List SupplierInvoice

-- `YearClosed` and `Balances`
unfoldable pub year_closed : FinancialOverview → Bool
year_closed ov = not (eqb_ℤ ov.result_transferred.minor_units (pos 0))

unfoldable pub balances : FinancialOverview → Bool
balances ov = eqb_ℤ ov.discrepancy.minor_units (pos 0)

-- The figures, once the loops have run.
unfoldable pub assemble :
    ℕ
    → VoucherSet
    → List CustomerInvoice
    → List SupplierInvoice
    → Accs
    → List UnbalancedVoucher
    → ℤ
    → ℤ
    → FinancialOverview
assemble year vouchers receivables payables m unbalanced owed owing =
    let t : Totals = total_accounts m no_totals in
    record {
      year = year;
      currency = "SEK";
      as_of = vouchers.as_of;
      freshness = vouchers.freshness;
      reason = vouchers.reason;
      positions = sort_positions (positions_of m);
      unbalanced_vouchers = unbalanced;
      voucher_count = length vouchers.vouchers;
      assets = sek t.assets;
      equity_and_liabilities = sek (neg64 t.eq_liab);
      revenue = sek (neg64 t.revenue);
      costs = sek t.costs;
      result = sek (sub64 (neg64 t.revenue) t.costs);
      result_transferred = sek t.result_transferred;
      discrepancy = sek t.total;
      receivables = sek owed;
      payables = sek owing;
      receivables_ageing = no_ageing;
      payables_ageing = no_ageing;
      receivable_invoices = receivables;
      payable_invoices = payables;
    }

unfoldable pub build_overview :
    ℕ
    → List Account
    → VoucherSet
    → List CustomerInvoice
    → List SupplierInvoice
    → Checked FinancialOverview
build_overview year chart vouchers receivables payables = do
  opened ← read_chart chart []
  (m, unbalanced) ← post_vouchers vouchers.vouchers opened []
  owed ← add_receivables receivables (pos 0)
  owing ← add_payables payables (pos 0)
  ok (assemble year vouchers receivables payables m unbalanced owed owing)

-- `WithAgeing`
unfoldable pub with_ageing : Instant → FinancialOverview → FinancialOverview
with_ageing today ov = record ov {
  receivables_ageing = age_receivables today ov.receivable_invoices ov.receivables_ageing;
  payables_ageing = age_payables today ov.payable_invoices ov.payables_ageing;
}
