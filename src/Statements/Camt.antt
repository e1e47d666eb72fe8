-- ===== src/Statements/Camt.antt =====
-- The parser of camt.053: internal/statements/camt053.go. Decoding the XML is a parameter: the
-- elements that it gives are the input. `fold` is the least code point of a case folding orbit.
pub mod Booked
mod Tests
use cobalt_dingo.Prelude.{
  ℕ, suc, Bool, true, false, not, none, some, List, [], ◌∷◌, String, str_eq, if◌then◌else◌, Result,
  ok, err, ◌>>=◌, wrap_err, length,
}
use cobalt_dingo.Prelude.Int.{ℤ}
use cobalt_dingo.Prelude.Int64.{neg64}
use cobalt_dingo.Dates.{Instant, codes, parse_date}
use cobalt_dingo.Dates.Stamp.{parse_stamp}
use cobalt_dingo.Money.{Money}
use cobalt_dingo.Statements.{Source, camt053, Direction, credit, debit, Transaction, Statement}
use cobalt_dingo.Statements.Decimal.{DecimalError, parse_decimal_minor}
use cobalt_dingo.Words.{trim_str, equal_fold_str, join_space}

pub record CamtAmount : Type 0 where
  pub value : String
  pub currency : String

pub record CamtDate : Type 0 where
  pub date : String
  pub date_time : String

pub record CamtBalance : Type 0 where
  pub code : String
  pub amount : CamtAmount
  pub credit_debit : String
  pub date : CamtDate

pub record CamtTxDetails : Type 0 where
  pub end_to_end_id : String
  pub creditor : String
  pub debtor : String
  pub unstructured : List String

pub record CamtEntry : Type 0 where
  pub amount : CamtAmount
  pub credit_debit : String
  pub status : String
  pub booking_date : CamtDate
  pub value_date : CamtDate
  pub acct_svcr_ref : String
  pub transactions : List CamtTxDetails

pub record CamtStatement : Type 0 where
  pub id : String
  pub from : String
  pub to : String
  pub iban : String
  pub other_id : String
  pub account_currency : String
  pub balances : List CamtBalance
  pub entries : List CamtEntry

pub data TimeError : Type 0 where
  empty_date unrecognised : TimeError

pub data EntryError : Type 0 where
  bad_amount : DecimalError → EntryError
  bad_booking_date bad_value_date : TimeError → EntryError

pub data BalanceError : Type 0 where
  bad_balance : String → DecimalError → BalanceError
  no_balance : List String → BalanceError

pub data CamtError : Type 0 where
  not_decoded : String → CamtError
  no_statement : String → CamtError
  many_statements : String → ℕ → CamtError
  bad_start bad_end : TimeError → CamtError
  bad_balances : String → BalanceError → CamtError
  bad_entry : String → ℕ → EntryError → CamtError

-- A layout that fails gives way to the next.
abbrev or_else : {E A : Type 0} → Result E A → Result TimeError A → Result TimeError A
or_else (ok a) next = ok a
or_else (err e) next = next

-- `parseCamtTime`. A text of the fourth layout is one of the second, with the same time.
unfoldable pub parse_camt_time : String → Result TimeError Instant
parse_camt_time text =
    let s = trim_str text in
    let day : Result TimeError Instant = elim (parse_date s) [
      | none ↦ err unrecognised
      | some t ↦ ok t
    ] in
    if str_eq s ""
    then err empty_date
    else or_else day (
        or_else (parse_stamp false (codes s))
          (or_else (parse_stamp true (codes s)) (err unrecognised)))

-- `firstNonEmpty`
unfoldable pub first_non_empty : List String → String
first_non_empty [] = ""
first_non_empty (v ∷ vals) =
    let rest = first_non_empty vals in if str_eq (trim_str v) "" then rest else v

-- `parseCamtDate`
abbrev pub parse_camt_date : CamtDate → Result TimeError Instant
parse_camt_date d = parse_camt_time (first_non_empty (d.date ∷ d.date_time ∷ []))

abbrev pub account_of : CamtStatement → String
account_of raw =
    let account = trim_str raw.iban in if str_eq account "" then trim_str raw.other_id else account

module _ (fold : ℕ → ℕ) where
  abbrev pub is_debit : String → Bool
  is_debit text = equal_fold_str fold (trim_str text) "DBIT"

  abbrev pub has_code : String → CamtBalance → Bool
  has_code want b = equal_fold_str fold (trim_str b.code) want

  -- A balance that was found.
  abbrev pub read_balance : String → CamtBalance → Result BalanceError Money
  read_balance want b =
      wrap_err (bad_balance want) (parse_decimal_minor (codes b.amount.value)) >>= λ minor.
      ok (record {
        minor_units = if is_debit b.credit_debit then neg64 minor else minor;
        currency = trim_str b.amount.currency;
      })

  -- The first balance of one code, or what the next codes give.
  unfoldable pub find_balance :
      String → List CamtBalance → Result BalanceError Money → Result BalanceError Money
  find_balance want [] next = next
  find_balance want (b ∷ balances) next =
      let rest = find_balance want balances next in
      if has_code want b then read_balance want b else rest

  unfoldable pub search_balance :
      List CamtBalance → List String → List String → Result BalanceError Money
  search_balance balances codes [] = err (no_balance codes)
  search_balance balances codes (want ∷ wants) =
      find_balance want balances (search_balance balances codes wants)

  -- `balanceByCode`
  abbrev pub balance_by_code : List CamtBalance → List String → Result BalanceError Money
  balance_by_code balances codes = search_balance balances codes codes

  abbrev pub direction_of : CamtEntry → Direction
  direction_of e = if is_debit e.credit_debit then debit else credit

  abbrev pub counterparty_of : Direction → CamtTxDetails → String
  counterparty_of debit d = trim_str d.creditor
  counterparty_of credit d = trim_str d.debtor

  -- The details of the first transaction of an entry.
  abbrev pub with_details : List CamtTxDetails → Transaction → Transaction
  with_details [] tx = tx
  with_details (d ∷ more) tx = record tx {
    end_to_end_id = trim_str d.end_to_end_id;
    remittance = trim_str (join_space d.unstructured);
    counterparty = counterparty_of tx.direction d;
  }

  -- `entryToTransaction`
  unfoldable pub entry_to_transaction : CamtEntry → String → String → Result EntryError Transaction
  entry_to_transaction e account source_ref =
      wrap_err bad_amount (parse_decimal_minor (codes e.amount.value)) >>= λ minor.
      wrap_err bad_booking_date (parse_camt_date e.booking_date) >>= λ booking.
      wrap_err bad_value_date (parse_camt_date e.value_date) >>= λ value. ok (
        with_details e.transactions (record {
          account = account;
          booking_date = booking;
          value_date = value;
          amount = record { minor_units = minor; currency = trim_str e.amount.currency };
          direction = direction_of e;
          bank_ref = trim_str e.acct_svcr_ref;
          end_to_end_id = "";
          counterparty = "";
          remittance = "";
          source = camt053;
          source_ref = source_ref;
        }))

  abbrev pub is_booked : CamtEntry → Bool
  is_booked e = equal_fold_str fold (trim_str e.status) "BOOK"

  -- The loop over the entries, the first of which has the given number.
  unfoldable pub read_entries :
      String → String → String → ℕ → List CamtEntry → Result CamtError (List Transaction)
  read_entries id account source_ref i [] = ok []
  read_entries id account source_ref i (e ∷ entries) =
      let rest = read_entries id account source_ref (suc i) entries in
      let booked = wrap_err (bad_entry id i) (entry_to_transaction e account source_ref) >>= λ tx.
      rest >>= λ txs. ok (tx ∷ txs) in
      if not (is_booked e) then rest else booked

  unfoldable pub read_statement : CamtStatement → String → Result CamtError Statement
  read_statement raw source_ref =
      let id = trim_str raw.id in
      wrap_err bad_start (parse_camt_time raw.from) >>= λ from.
      wrap_err bad_end (parse_camt_time raw.to) >>= λ to.
      wrap_err (bad_balances id) (balance_by_code raw.balances ("OPBD" ∷ "PRCD" ∷ []))
      >>= λ opening.
          wrap_err (bad_balances id) (balance_by_code raw.balances ("CLBD" ∷ [])) >>= λ closing.
          read_entries id (account_of raw) source_ref 1 raw.entries >>= λ txs. ok (record {
            id = id;
            account = account_of raw;
            from = from;
            to = to;
            opening_balance = opening;
            closing_balance = closing;
            transactions = txs;
            source = camt053;
            source_ref = source_ref;
          })

  -- `ParseCamt053`, on the statements that were decoded.
  unfoldable pub parse_camt053 :
      Result String (List CamtStatement) → String → Result CamtError Statement
  parse_camt053 (err e) source_ref = err (not_decoded e)
  parse_camt053 (ok []) source_ref = err (no_statement source_ref)
  parse_camt053 (ok (raw ∷ [])) source_ref = read_statement raw source_ref
  parse_camt053 (ok (raw ∷ other ∷ more)) source_ref =
      err (many_statements source_ref (length (raw ∷ other ∷ more)))
