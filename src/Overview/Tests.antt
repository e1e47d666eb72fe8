-- ===== src/Overview/Tests.antt =====
-- A year of two accounts and one voucher, run through the overview, and the theorems at it.
use cobalt_dingo.Prelude.{◌≡◌, refl, true, false, List, [], ◌∷◌, ok, ℕ, ◌>>=◌, arith}
use cobalt_dingo.Prelude.Int.{ℤ, pos, negsuc, ◌+ℤ◌, ◌-ℤ◌}
use cobalt_dingo.Prelude.Int64.{wrap64}
use cobalt_dingo.Money.{assert_currency}
use cobalt_dingo.Ledger.{Account, VoucherRow, Voucher, CustomerInvoice, SupplierInvoice}
use cobalt_dingo.Vouchers.{VoucherSet, fresh, never_synced}
use cobalt_dingo.Overview.{Accs, sek, get, put, read_chart, post_rows, post_vouchers}
use cobalt_dingo.Overview.Report.{
  FinancialOverview, assemble, add_receivables, add_payables, build_overview, balances,
  total_accounts, add_closing, with_ageing,
}
use cobalt_dingo.Overview.Sums.{brought_forward, vouchers_net}
use cobalt_dingo.Overview.Identity.{discrepancy-eq-books, balanced_books}
use cobalt_dingo.Overview.Buckets.{ageing_sum, receivables_sum, payables_sum, with_ageing-conserves}

abbrev account : ℕ → ℤ → Account
account n opening = record {
  number = n;
  description = "a";
  sru = 0;
  active = true;
  year = 1;
  balance_bf = sek opening;
  balance_cf = sek opening;
}

abbrev row : ℕ → ℤ → ℤ → VoucherRow
row n debit credit = record {
  account = n;
  debit = sek debit;
  credit = sek credit;
  description = "";
  cost_center = "";
  project = "";
}

abbrev sale : Voucher
sale = record {
  series = "A";
  number = pos 1;
  description = "sale";
  transaction_date = "2026-01-02";
  year = 1;
  rows = row 1930 (pos 50) (pos 0) ∷ row 3000 (pos 0) (pos 50) ∷ [];
}

abbrev skewed : Voucher
skewed = record sale { number = pos 2; rows = row 1930 (pos 7) (pos 0) ∷ [] }

abbrev year_of : List Voucher → VoucherSet
year_of vs = record { vouchers = vs; freshness = fresh; as_of = pos 1; reason = never_synced }

abbrev chart : List Account
chart = account 1930 (pos 100) ∷ account 2010 (negsuc 99) ∷ account 4000 (pos 0) ∷ []

abbrev receivable : CustomerInvoice
receivable = record {
  invoice_number = 1;
  customer_number = 1;
  customer_name = "c";
  amount = sek (pos 9);
  balance = sek (pos 5);
  due_date = "2026-01-31";
  invoice_date = "2026-01-01";
  booked = true;
  cancelled = false;
  sent = true;
}

abbrev voided : SupplierInvoice
voided = record {
  invoice_number = 2;
  supplier_number = 1;
  supplier_name = "s";
  supplier_reference = "x";
  amount = record { minor_units = pos 8; currency = "EUR" };
  balance = record { minor_units = pos 8; currency = "EUR" };
  due_date = "soon";
  booked = true;
  cancelled = true;
}

abbrev collected : Accs
collected =
    (
      1930,
      record { description = "a"; opening = pos 100; debit = pos 50; credit = pos 0; seen = true },
    )
    ∷ (
      2010,
      record { description = "a"; opening = negsuc 99; debit = pos 0; credit = pos 0; seen = true },
    )
    ∷ (
      4000,
      record { description = "a"; opening = pos 0; debit = pos 0; credit = pos 0; seen = false },
    )
    ∷ (
      3000,
      record {
        description = "(not in chart of accounts)";
        opening = pos 0;
        debit = pos 0;
        credit = pos 50;
        seen = true;
      },
    )
    ∷ []

abbrev sample : FinancialOverview
sample =
    assemble 1 (year_of (sale ∷ [])) (receivable ∷ []) (voided ∷ []) collected [] (pos 5) (pos 0)

sample_built :
    build_overview 1 chart (year_of (sale ∷ [])) (receivable ∷ []) (voided ∷ []) ≡ ok sample
unfolding build_overview read_chart post_vouchers post_rows get put assert_currency add_receivables
    add_payables wrap64 ◌+ℤ◌ ◌-ℤ◌
sample_built = refl

sample-balances : balances sample ≡ true
unfolding balances assemble total_accounts add_closing wrap64 ◌+ℤ◌ ◌-ℤ◌
sample-balances = refl

sample_opens_balanced : brought_forward chart ≡ pos 0
unfolding ◌+ℤ◌
sample_opens_balanced = refl

sample_reports_none : sample.unbalanced_vouchers ≡ []
unfolding assemble
sample_reports_none = refl

discrepancy-eq-books_example :
    sample.discrepancy.minor_units ≡ wrap64 (brought_forward chart +ℤ vouchers_net (sale ∷ []))
discrepancy-eq-books_example =
    discrepancy-eq-books 1 chart (year_of (sale ∷ [])) (receivable ∷ []) (voided ∷ []) sample
      sample_built (omega arith)

balanced_books_example : balances sample ≡ true
balanced_books_example =
    balanced_books 1 chart (year_of (sale ∷ [])) (receivable ∷ []) (voided ∷ []) sample sample_built
      (omega arith) sample_opens_balanced sample_reports_none

with_ageing-conserves_example :
    let aged = with_ageing (pos 1) sample in
    (wrap64 (ageing_sum aged.receivables_ageing) ≡ aged.receivables.minor_units)
    × (wrap64 (ageing_sum aged.payables_ageing) ≡ aged.payables.minor_units)
    × (aged.receivables.minor_units ≡ wrap64 (receivables_sum (receivable ∷ [])))
    × (aged.payables.minor_units ≡ wrap64 (payables_sum (voided ∷ [])))
with_ageing-conserves_example =
    with_ageing-conserves 1 chart (year_of (sale ∷ [])) (receivable ∷ []) (voided ∷ []) sample
      (pos 1) sample_built

collected_accounts :
    (do opened ← read_chart chart []; post_vouchers (sale ∷ []) opened []) ≡ ok (collected, [])
unfolding read_chart post_vouchers post_rows get put assert_currency wrap64 ◌+ℤ◌ ◌-ℤ◌
collected_accounts = refl

abbrev swapped : Accs → Accs
swapped [] = []
swapped (a ∷ []) = a ∷ []
swapped (a ∷ b ∷ m) = b ∷ a ∷ m
