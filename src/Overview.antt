-- ===== src/Overview.antt =====
-- The financial overview: internal/domain/financial_overview.go. `build_overview` is
-- `BuildFinancialOverview`, whose loops are the functions above it, one each.
--
-- The Go map from account numbers is an association list that keeps the order of first insertion.
-- Go walks a map in a random order, which is the subject of Overview/Order.
pub mod Ageing
pub mod Report
pub mod Sums
pub mod Posting
pub mod Identity
mod Tests
pub mod Order
pub mod Buckets
pub mod Currency
use cobalt_dingo.Prelude.{
  ℕ, Bool, true, false, not, Option, none, some, List, [], ◌∷◌, ◌++◌, String, ◌==◌, if◌then◌else◌,
  Result, ok, ◌>>=◌, ◌>>◌,
}
use cobalt_dingo.Prelude.Int.{ℤ, pos, eqb_ℤ}
use cobalt_dingo.Prelude.Int64.{add64, sub64}
use cobalt_dingo.Money.{Money, WrongCurrency, assert_currency}
use cobalt_dingo.Ledger.{Account, VoucherRow, Voucher}

-- Where a figure stands, as the errors name it.
pub data Place : Type 0 where
  account_opening : ℕ → Place
  row_debit row_credit : String → ℤ → ℕ → Place
  customer_invoice supplier_invoice : ℕ → Place

abbrev pub Checked : Type 0 → Type 0
Checked A = Result (WrongCurrency Place) A

-- The fixed currency of the overview, `const currency`.
abbrev pub currency : String
currency = "SEK"

-- `resultTransferAccount`
abbrev pub result_transfer_account : ℕ
result_transfer_account = 8999

pub record AccountPosition : Type 0 where
  pub number : ℕ
  pub description : String
  pub opening : Money
  pub debit : Money
  pub credit : Money
  pub closing : Money

pub record UnbalancedVoucher : Type 0 where
  pub series : String
  pub number : ℤ
  pub description : String
  pub difference : Money
  pub rows : List VoucherRow

-- `acc`: what the walk over the vouchers collects for one account.
pub record Acc : Type 0 where
  pub description : String
  pub opening : ℤ
  pub debit : ℤ
  pub credit : ℤ
  pub seen : Bool

abbrev pub Accs : Type 0
Accs = List (ℕ × Acc)

unfoldable pub get : ℕ → Accs → Option Acc
get k [] = none
get k ((j, a) ∷ m) = if k == j then some a else get k m

unfoldable pub put : ℕ → Acc → Accs → Accs
put k a [] = (k, a) ∷ []
put k a ((j, b) ∷ m) = if k == j then (k, a) ∷ m else (j, b) ∷ put k a m

-- An account that is posted to and is not in the chart.
abbrev pub absent : Acc
absent = record {
  description = "(not in chart of accounts)";
  opening = pos 0;
  debit = pos 0;
  credit = pos 0;
  seen = false;
}

abbrev pub or_absent : Option Acc → Acc
or_absent none = absent
or_absent (some a) = a

abbrev pub opening_acc : Account → Acc
opening_acc a = record {
  description = a.description;
  opening = a.balance_bf.minor_units;
  debit = pos 0;
  credit = pos 0;
  seen = not (eqb_ℤ a.balance_bf.minor_units (pos 0));
}

-- The loop over the chart of accounts.
unfoldable pub read_chart : List Account → Accs → Checked Accs
read_chart [] m = ok m
read_chart (a ∷ chart) m =
    assert_currency a.balance_bf currency (account_opening a.number)
    >> read_chart chart (put a.number (opening_acc a) m)

-- One row on its account.
abbrev pub post : VoucherRow → Acc → Acc
post r a = record a {
  debit = add64 a.debit r.debit.minor_units;
  credit = add64 a.credit r.credit.minor_units;
  seen = true;
}

-- The loop over the rows of a voucher, on the accounts and `voucherDiff`.
unfoldable pub post_rows : String → ℤ → List VoucherRow → Accs → ℤ → Checked (Accs × ℤ)
post_rows series number [] m diff = ok (m, diff)
post_rows series number (r ∷ rows) m diff =
    assert_currency r.debit currency (row_debit series number r.account)
    >> (assert_currency r.credit currency (row_credit series number r.account)
        >> post_rows series number rows (put r.account (post r (or_absent (get r.account m))) m)
            (add64 diff (sub64 r.debit.minor_units r.credit.minor_units)))

abbrev pub sek : ℤ → Money
sek n = record { minor_units = n; currency = currency }

abbrev pub report_voucher : Voucher → ℤ → UnbalancedVoucher
report_voucher v diff = record {
  series = v.series;
  number = v.number;
  description = v.description;
  difference = sek diff;
  rows = v.rows;
}

-- The loop over the vouchers, on the accounts and the list `unbalanced`.
unfoldable pub post_vouchers :
    List Voucher → Accs → List UnbalancedVoucher → Checked (Accs × List UnbalancedVoucher)
post_vouchers [] m out = ok (m, out)
post_vouchers (v ∷ vs) m out = do
  (m', diff) ← post_rows v.series v.number v.rows m (pos 0)
  post_vouchers vs m' (if eqb_ℤ diff (pos 0) then out else out ++ report_voucher v diff ∷ [])
