-- ===== src/Overview/Ageing.antt =====
-- The ageing buckets of the overview: `bucket` and the loops of `WithAgeing`. The source passes the
-- four figures of one ledger by four pointers; here they are one record.
use cobalt_dingo.Prelude.{Option, none, some, List, [], ◌∷◌, String, if◌then◌else◌}
use cobalt_dingo.Prelude.Int.{ℤ, pos, leb_ℤ}
use cobalt_dingo.Prelude.Int64.{add64}
use cobalt_dingo.Dates.{Instant, parse_date, sub_time, whole_days}
use cobalt_dingo.Money.{Money, no_money, ensure_currency}
use cobalt_dingo.Ledger.{CustomerInvoice, SupplierInvoice}

-- The four ageing figures of one ledger.
pub record Ageing : Type 0 where
  pub not_yet_due : Money
  pub overdue_0_to_30 : Money
  pub overdue_31_to_90 : Money
  pub overdue_90_plus : Money

abbrev pub no_ageing : Ageing
no_ageing = record {
  not_yet_due = no_money;
  overdue_0_to_30 = no_money;
  overdue_31_to_90 = no_money;
  overdue_90_plus = no_money;
}

abbrev pub plus : Money → Money → Money
plus m n = record m { minor_units = add64 m.minor_units n.minor_units }

-- The `switch` of `bucket` on the days past due.
unfoldable pub bucket_days : ℤ → Money → Ageing → Ageing
bucket_days days amount b =
    if leb_ℤ days (pos 0)
    then record b { not_yet_due = plus b.not_yet_due amount }
    else if leb_ℤ days (pos 30)
    then record b { overdue_0_to_30 = plus b.overdue_0_to_30 amount }
    else if leb_ℤ days (pos 90)
    then record b { overdue_31_to_90 = plus b.overdue_31_to_90 amount }
    else record b { overdue_90_plus = plus b.overdue_90_plus amount }

-- An unparseable due date goes to the most overdue bucket.
unfoldable pub bucket_due : Option Instant → Money → Instant → Ageing → Ageing
bucket_due none amount today b = record b { overdue_90_plus = plus b.overdue_90_plus amount }
bucket_due (some due) amount today b = bucket_days (whole_days (sub_time today due)) amount b

-- `bucket`
unfoldable pub bucket : String → Money → Instant → Ageing → Ageing
bucket due_date amount today b = bucket_due (parse_date due_date) amount today (record {
  not_yet_due = ensure_currency b.not_yet_due amount.currency;
  overdue_0_to_30 = ensure_currency b.overdue_0_to_30 amount.currency;
  overdue_31_to_90 = ensure_currency b.overdue_31_to_90 amount.currency;
  overdue_90_plus = ensure_currency b.overdue_90_plus amount.currency;
})

unfoldable pub age_receivables : Instant → List CustomerInvoice → Ageing → Ageing
age_receivables today [] b = b
age_receivables today (i ∷ is) b = age_receivables today is (bucket i.due_date i.balance today b)

unfoldable pub age_payables : Instant → List SupplierInvoice → Ageing → Ageing
age_payables today [] b = b
age_payables today (i ∷ is) b =
    age_payables today is (if i.cancelled then b else bucket i.due_date i.balance today b)
