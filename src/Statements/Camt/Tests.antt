-- ===== src/Statements/Camt/Tests.antt =====
-- A statement of one booked and one pending entry.
use cobalt_dingo.Prelude.{ℕ, ◌≡◌, refl, List, [], ◌∷◌, map, All, String, Result, ok}
use cobalt_dingo.Prelude.Int.{ℤ, pos}
use cobalt_dingo.Prelude.Int64.{InRange}
use cobalt_dingo.Prelude.Text.{same_text, trim_space, trim_left, trim_right, after_prefix, is_space}
use cobalt_dingo.Dates.{Instant, codes, parse_codes, parse_date}
use cobalt_dingo.Money.{Money}
use cobalt_dingo.Words.{trim_str, trim_str_left, trim_str_right, equal_fold_str}
use cobalt_dingo.Statements.{camt053, debit, Statement}
use cobalt_dingo.Statements.Decimal.{
  cut_dot, skip_space, scan_digits, scan_int, parse_unsigned, parse_decimal_minor, all_zero,
}
use cobalt_dingo.Statements.Camt.{
  CamtDate, CamtBalance, CamtEntry, CamtStatement, parse_camt_time, first_non_empty, find_balance,
  search_balance, entry_to_transaction, read_entries, account_of, read_statement, parse_camt053,
}
use cobalt_dingo.Statements.Camt.Booked.{booked_of, HasAmountInRange, parse_camt053-booked}

abbrev fold : ℕ → ℕ
fold c = c

abbrev on_day : CamtDate
on_day = record { date = "2026-01-02"; date_time = "" }

abbrev balance : String → String → CamtBalance
balance code value = record {
  code = code;
  amount = record { value = value; currency = "SEK" };
  credit_debit = "CRDT";
  date = on_day;
}

abbrev entry : String → CamtEntry
entry status = record {
  amount = record { value = "2.50"; currency = "SEK" };
  credit_debit = "DBIT";
  status = status;
  booking_date = on_day;
  value_date = on_day;
  acct_svcr_ref = "r1";
  transactions = [];
}

abbrev raw : CamtStatement
raw = record {
  id = "s";
  from = "2026-01-02";
  to = "2026-01-02";
  iban = "SE1";
  other_id = "";
  account_currency = "SEK";
  balances = balance "OPBD" "10.00" ∷ balance "CLBD" "7.50" ∷ [];
  entries = entry "BOOK" ∷ entry "PDNG" ∷ [];
}

abbrev day : Instant
day = pos 63902908800000000000

abbrev sek : ℤ → Money
sek n = record { minor_units = n; currency = "SEK" }

abbrev statement : Statement
statement = record {
  id = "s";
  account = "SE1";
  from = day;
  to = day;
  opening_balance = sek (pos 1000);
  closing_balance = sek (pos 750);
  transactions =
      record {
        account = "SE1";
        booking_date = day;
        value_date = day;
        amount = sek (pos 250);
        direction = debit;
        bank_ref = "r1";
        end_to_end_id = "";
        counterparty = "";
        remittance = "";
        source = camt053;
        source_ref = "f";
      }
      ∷ [];
  source = camt053;
  source_ref = "f";
}

is_parsed : parse_camt053 fold (ok (raw ∷ [])) "f" ≡ ok statement
unfolding parse_camt053 read_statement read_entries entry_to_transaction search_balance find_balance
    parse_camt_time first_non_empty trim_str trim_str_left trim_str_right equal_fold_str same_text
    codes parse_codes parse_date parse_decimal_minor parse_unsigned cut_dot scan_int skip_space
    scan_digits trim_space trim_left trim_right after_prefix is_space all_zero
is_parsed = refl

parse_camt053-booked_example :
    (raw1 : CamtStatement) × (◌≡◌ {A = Result String (List CamtStatement)}
      (ok (raw ∷ []))
      (ok (raw1 ∷ [])))
    × (booked_of fold raw1.entries (account_of raw1) "f" ≡ map ok statement.transactions)
    × All HasAmountInRange statement.transactions
    × InRange statement.opening_balance.minor_units
    × InRange statement.closing_balance.minor_units
parse_camt053-booked_example = parse_camt053-booked fold (ok (raw ∷ [])) "f" statement is_parsed
