-- ===== src/Statements/Tests.antt =====
-- A statement of a credit and a debit.
use cobalt_dingo.Prelude.{◌≡◌, ◌≢◌, refl, [], ◌∷◌, ok}
use cobalt_dingo.Prelude.Int.{ℤ, pos, ◌+ℤ◌, ◌-ℤ◌}
use cobalt_dingo.Prelude.Int64.{wrap64}
use cobalt_dingo.Statements.{
  Direction, credit, debit, camt053, Transaction, Statement, net_of, check_balance,
}
use cobalt_dingo.Statements.Reconcile.{check_balance-lost_row}

abbrev row : Direction → ℤ → Transaction
row d n = record {
  account = "SE1";
  booking_date = pos 1;
  value_date = pos 1;
  amount = record { minor_units = n; currency = "SEK" };
  direction = d;
  bank_ref = "r";
  end_to_end_id = "";
  counterparty = "";
  remittance = "";
  source = camt053;
  source_ref = "f";
}

abbrev statement : Statement
statement = record {
  id = "s";
  account = "SE1";
  from = pos 1;
  to = pos 2;
  opening_balance = record { minor_units = pos 100; currency = "SEK" };
  closing_balance = record { minor_units = pos 120; currency = "SEK" };
  transactions = row credit (pos 50) ∷ row debit (pos 30) ∷ [];
  source = camt053;
  source_ref = "f";
}

reconciles : check_balance statement ≡ ok tt
unfolding check_balance net_of wrap64 ◌+ℤ◌ ◌-ℤ◌
reconciles = refl

moves : wrap64 (pos 50) ≢ wrap64 (pos 0)
unfolding wrap64
moves e = cc

check_balance-lost_row_example :
    check_balance (record statement { transactions = row debit (pos 30) ∷ [] }) ≢ ok tt
check_balance-lost_row_example =
    check_balance-lost_row statement [] (row debit (pos 30) ∷ []) (row credit (pos 50)) moves
      reconciles
