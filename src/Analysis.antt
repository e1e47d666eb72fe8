-- ===== src/Analysis.antt =====
-- Counting and summing: internal/analyst/aggregator.go and internal/domain/account_activity.go.
-- Counts are natural numbers. `GroupBy` and `OrderedKeys` are in Groups.
pub mod Counts
pub mod Groups
pub mod Partition
mod Tests
use Prim.Native.String.{compare}
use Prim.Native.Nat.{Ordering}
use cobalt_dingo.Prelude.{
  ℕ, suc, ◌+◌, ◌-◌, ◌*◌, ◌/◌, Bool, true, false, ◌||◌, Option, none, some, List, [], ◌∷◌, String,
  str_eq, ◌==◌, if◌then◌else◌,
}
use cobalt_dingo.Prelude.Int.{ℤ, pos, negsuc, leb_ℤ, ltb_ℤ}
use cobalt_dingo.Prelude.Int64.{add64}
use cobalt_dingo.Dates.{Instant, ns_per_day, parse_date, sub_time, whole_days}
use cobalt_dingo.Ledger.{VoucherRow, Voucher}

-- `Truncate(24 * time.Hour)`: down to a multiple of a day since the zero time.
abbrev pub truncate_day : Instant → Instant
truncate_day (pos n) = pos (n / ns_per_day * ns_per_day)
truncate_day (negsuc n) = negsuc ((n / ns_per_day + 1) * ns_per_day - 1)

pub record AgingReport : Type 0 where
  pub current : ℕ
  pub days_1_to_30 : ℕ
  pub days_31_to_60 : ℕ
  pub days_61_to_90 : ℕ
  pub over_90 : ℕ

abbrev pub no_dates : AgingReport
no_dates = record {
  current = 0;
  days_1_to_30 = 0;
  days_31_to_60 = 0;
  days_61_to_90 = 0;
  over_90 = 0;
}

-- The `switch` of `AgingBuckets`.
unfoldable pub age_days : ℤ → AgingReport → AgingReport
age_days days r =
    if leb_ℤ days (pos 0)
    then record r { current = suc r.current }
    else if leb_ℤ days (pos 30)
    then record r { days_1_to_30 = suc r.days_1_to_30 }
    else if leb_ℤ days (pos 60)
    then record r { days_31_to_60 = suc r.days_31_to_60 }
    else if leb_ℤ days (pos 90)
    then record r { days_61_to_90 = suc r.days_61_to_90 }
    else record r { over_90 = suc r.over_90 }

-- One round of the loop, with the parsed date; `today` is truncated.
unfoldable pub age_date : Instant → Option Instant → AgingReport → AgingReport
age_date today none r = r
age_date today (some d) r = age_days (whole_days (sub_time today d)) r

unfoldable pub age_dates : Instant → List String → AgingReport → AgingReport
age_dates today [] r = r
age_dates today (s ∷ dates) r = age_dates today dates (age_date today (parse_date s) r)

-- `AgingBuckets`
unfoldable pub aging_buckets : List String → Instant → AgingReport
aging_buckets dates today = age_dates (truncate_day today) dates no_dates

-- `SumMinorUnits`, from `total` on
unfoldable pub sum_minor_units : List ℤ → ℤ → ℤ
sum_minor_units [] total = total
sum_minor_units (v ∷ values) total = sum_minor_units values (add64 total v)

-- `DaysOverdue`
unfoldable pub days_overdue : String → Instant → ℤ
days_overdue due today = elim (parse_date due) [
  | none ↦ pos 0
  | some d ↦
      let days = whole_days (sub_time (truncate_day today) d) in
      if ltb_ℤ days (pos 0) then pos 0 else days
]

pub record AccountSummary : Type 0 where
  pub account : ℕ
  pub count : ℕ
  pub earliest : String
  pub latest : String

-- `<` on strings
abbrev pub text_before : String → String → Bool
text_before a b = elim (compare a b) [ Ordering.lt ↦ true | _ ↦ false ]

-- `touchesAccount`
unfoldable pub touches_rows : List VoucherRow → ℕ → Bool
touches_rows [] account = false
touches_rows (r ∷ rows) account = r.account == account || touches_rows rows account

-- The dates after a voucher that touches the account.
unfoldable pub note_date : String → AccountSummary → AccountSummary
note_date d out = if str_eq d "" then out else record out {
  earliest = if str_eq out.earliest "" || text_before d out.earliest then d else out.earliest;
  latest = if text_before out.latest d then d else out.latest;
}

unfoldable pub summarise : List Voucher → AccountSummary → AccountSummary
summarise [] out = out
summarise (v ∷ vouchers) out =
    if touches_rows v.rows out.account
    then summarise vouchers (note_date v.transaction_date (record out { count = suc out.count }))
    else summarise vouchers out

-- `SummariseAccount`
unfoldable pub summarise_account : List Voucher → ℕ → AccountSummary
summarise_account vouchers account =
    summarise vouchers (record { account = account; count = 0; earliest = ""; latest = "" })
