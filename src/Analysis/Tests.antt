-- ===== src/Analysis/Tests.antt =====
-- Three due dates, and an account that two vouchers touch.
use cobalt_dingo.Prelude.{◌≡◌, refl, List, [], ◌∷◌, ℕ}
use cobalt_dingo.Prelude.Int.{pos}
use cobalt_dingo.Money.{no_money}
use cobalt_dingo.Ledger.{VoucherRow, Voucher}
use cobalt_dingo.Analysis.{touches_rows, summarise, note_date, summarise_account}

abbrev row : ℕ → VoucherRow
row n = record {
  account = n;
  debit = no_money;
  credit = no_money;
  description = "";
  cost_center = "";
  project = "";
}

abbrev voucher : List VoucherRow → Voucher
voucher rows = record {
  series = "A";
  number = pos 1;
  description = "";
  transaction_date = "2026-01-01";
  year = 1;
  rows = rows;
}

abbrev vouchers : List Voucher
vouchers = voucher (row 1930 ∷ row 1930 ∷ []) ∷ voucher (row 3000 ∷ []) ∷ []

counted_once : (summarise_account vouchers 1930).count ≡ 1
unfolding summarise_account summarise touches_rows note_date
counted_once = refl
