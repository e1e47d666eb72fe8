-- ===== src/Ledger.antt =====
-- The bookkeeping data of internal/domain/ledger.go and invoice.go. Numbers that identify things
-- (accounts, invoices, years) are natural numbers, those of vouchers are signed; dates are the YYYY-MM-DD texts that
-- the source keeps.
use cobalt_dingo.Prelude.{ℕ, Bool, List, String}
use cobalt_dingo.Prelude.Int.{ℤ}
use cobalt_dingo.Money.{Money}

pub record CustomerInvoice : Type 0 where
  pub invoice_number : ℕ
  pub customer_number : ℕ
  pub customer_name : String
  pub amount : Money
  pub balance : Money
  pub due_date : String
  pub invoice_date : String
  pub booked : Bool
  pub cancelled : Bool
  pub sent : Bool

pub record SupplierInvoice : Type 0 where
  pub invoice_number : ℕ
  pub supplier_number : ℕ
  pub supplier_name : String
  pub supplier_reference : String
  pub amount : Money
  pub balance : Money
  pub due_date : String
  pub booked : Bool
  pub cancelled : Bool

pub record Account : Type 0 where
  pub number : ℕ
  pub description : String
  pub sru : ℕ
  pub active : Bool
  pub year : ℕ
  pub balance_bf : Money
  pub balance_cf : Money

pub record VoucherRow : Type 0 where
  pub account : ℕ
  pub debit : Money
  pub credit : Money
  pub description : String
  pub cost_center : String
  pub project : String

pub record Voucher : Type 0 where
  pub series : String
  pub number : ℤ
  pub description : String
  pub transaction_date : String
  pub year : ℕ
  pub rows : List VoucherRow
