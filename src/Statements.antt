-- ===== src/Statements.antt =====
-- Bank statements: `Transaction`, `Statement` and `CheckBalance` of
-- internal/statements/statement.go. An int64 is an integer with the wrap of each operation; the
-- hash of `IdempotencyKey` is not modelled.
pub mod Reconcile
pub mod Decimal
pub mod Camt
mod Tests
use cobalt_dingo.Prelude.{ℕ, not, List, [], ◌∷◌, String, length, if◌then◌else◌, Result, ok, err}
use cobalt_dingo.Prelude.Int.{ℤ, pos, eqb_ℤ}
use cobalt_dingo.Prelude.Int64.{add64, sub64, neg64}
use cobalt_dingo.Dates.{Instant}
use cobalt_dingo.Money.{Money}

pub data Source : Type 0 where
  camt053 csv aggregator : Source

pub data Direction : Type 0 where
  credit debit : Direction

pub record Transaction : Type 0 where
  pub account : String
  pub booking_date : Instant
  pub value_date : Instant
  pub amount : Money
  pub direction : Direction
  pub bank_ref : String
  pub end_to_end_id : String
  pub counterparty : String
  pub remittance : String
  pub source : Source
  pub source_ref : String

pub record Statement : Type 0 where
  pub id : String
  pub account : String
  pub from : Instant
  pub to : Instant
  pub opening_balance : Money
  pub closing_balance : Money
  pub transactions : List Transaction
  pub source : Source
  pub source_ref : String

abbrev pub with_direction : Direction → ℤ → ℤ
with_direction debit n = neg64 n
with_direction credit n = n

-- `SignedMinorUnits`
abbrev pub signed_minor_units : Transaction → ℤ
signed_minor_units t = with_direction t.direction t.amount.minor_units

-- The loop of `CheckBalance`, from `net` on
unfoldable pub net_of : List Transaction → ℤ → ℤ
net_of [] net = net
net_of (t ∷ transactions) net = net_of transactions (add64 net (signed_minor_units t))

-- The figures of the error text.
pub record Unreconciled : Type 0 where
  pub id : String
  pub opening : ℤ
  pub net : ℤ
  pub got : ℤ
  pub want : ℤ
  pub off_by : ℤ
  pub transactions : ℕ

-- `CheckBalance`
unfoldable pub check_balance : Statement → Result Unreconciled (Unit {0})
check_balance s =
    let net = net_of s.transactions (pos 0) in
    let want = s.closing_balance.minor_units in
    let got = add64 s.opening_balance.minor_units net in
    if not (eqb_ℤ got want)
    then err (record {
      id = s.id;
      opening = s.opening_balance.minor_units;
      net = net;
      got = got;
      want = want;
      off_by = sub64 got want;
      transactions = length s.transactions;
    })
    else ok tt
