-- ===== src/Tools/Tests.antt =====
-- Three invoices of two suppliers in two currencies, with integers for floats.
use mathlib.Core.List.Perm
use cobalt_dingo.Prelude.{ℕ, ◌≡◌, refl, Bool, true, false, none, List, [], ◌∷◌, String, ok, length}
use cobalt_dingo.Prelude.Int.{ℤ, pos, ◌+ℤ◌, ◌-ℤ◌, ltb_ℤ, eqb_ℤ}
use cobalt_dingo.Prelude.Int64.{wrap64}
use cobalt_dingo.Dates.{parse_date}
use cobalt_dingo.Money.{Money}
use cobalt_dingo.Ledger.{SupplierInvoice}
use cobalt_dingo.Analysis.Groups.{
  group_by, group_items, group_of, append_to, ordered_keys, unseen_keys, is_seen,
}
use cobalt_dingo.Tools.{
  Float, by_party, cut_to, sum_currency_totals, add_amounts, add_minor, last_name,
}
use cobalt_dingo.Tools.Payable.{supplier_invoices, ap_by_supplier}
use cobalt_dingo.Tools.Periods.{
  Ledger, Month, MonthMargin, gross_margin_trend, latest_year_id, latest_of, margin_months,
  period_metrics, meter_vouchers, parse_arg,
}
use cobalt_dingo.Tools.Ranks.{Rank, top_of, rank_invoices, add_rank}
use cobalt_dingo.Tools.Counted.{
  by_party-counts, IsLimited, total_of, group_count, top_of-IsRanking, IsRanking,
}
use cobalt_dingo.Tools.Totals.{
  sum_currency_totals-in_currency, totals_in, shown, after_adding, in_currency,
}

abbrev whole : Float
whole = record {
  F = ℤ;
  zero_float = pos 0;
  from_minor = λ n. n;
  add = ◌+ℤ◌;
  sub = ◌-ℤ◌;
  percent = λ a b. a;
  is_zero = λ a. eqb_ℤ a (pos 0);
  greater = λ a b. ltb_ℤ b a;
}

abbrev sek : ℕ → Money
sek n = record { minor_units = pos n; currency = "SEK" }

abbrev eur : ℕ → Money
eur n = record { minor_units = pos n; currency = "EUR" }

abbrev invoice : ℕ → ℕ → Money → String → SupplierInvoice
invoice number supplier amount due = record {
  invoice_number = number;
  supplier_number = supplier;
  supplier_name = "S";
  supplier_reference = "";
  amount = amount;
  balance = amount;
  due_date = due;
  booked = true;
  cancelled = false;
}

abbrev invoices : List SupplierInvoice
invoices =
    invoice 1 7 (sek 100) "2026-01-10"
    ∷ invoice 2 8 (eur 30) "2026-02-10"
    ∷ invoice 3 7 (eur 5) "no date"
    ∷ []

-- A sort that leaves its list as it is rearranges it.
abbrev keep : {A : Type 0} → (A → A → Bool) → List A → List A
keep before xs = xs

by_party-counts_example :
    (total_of (group_count whole) (by_party whole supplier_invoices keep (pos 0) invoices)
      ≡ length invoices)
    × IsLimited
        (group_count whole)
        (pos 1)
        (by_party whole supplier_invoices keep (pos 0) invoices)
        (by_party whole supplier_invoices keep (pos 1) invoices)
by_party-counts_example =
    by_party-counts whole supplier_invoices keep (λ groups. Perm.refl groups) (pos 1) invoices

first_group :
    ap_by_supplier whole keep (pos 1) (ok invoices)
    ≡ ok (
        record {
          number = 7;
          name = "S";
          count = 2;
          currencies =
              record { currency = "SEK"; total = pos 100 }
              ∷ record { currency = "EUR"; total = pos 5 }
              ∷ [];
        }
        ∷ [])
unfolding ap_by_supplier by_party cut_to group_by group_items group_of append_to ordered_keys
    unseen_keys is_seen sum_currency_totals add_amounts add_minor last_name wrap64 ◌+ℤ◌
first_group = refl

sum_currency_totals-in_currency_example :
    totals_in whole "EUR" (sum_currency_totals whole (eur 1 ∷ sek 2 ∷ eur 3 ∷ []))
    ≡ shown whole "EUR" (after_adding none (in_currency "EUR" (eur 1 ∷ sek 2 ∷ eur 3 ∷ [])))
sum_currency_totals-in_currency_example =
    sum_currency_totals-in_currency whole "EUR" (eur 1 ∷ sek 2 ∷ eur 3 ∷ [])

abbrev ranks : List (Rank whole)
ranks = record { number = 7; name = "S"; count = 1; total = pos 100 } ∷ []

ranked :
    top_of whole supplier_invoices
      (λ (inv : SupplierInvoice). inv.due_date)
      keep
      (pos 1)
      "2026-01-10"
      "2026-01-31"
      (ok invoices)
    ≡ ok ranks
unfolding top_of rank_invoices add_rank cut_to parse_arg parse_date ◌+ℤ◌
ranked = refl

top_of-IsRanking_example :
    IsRanking whole
      (λ (inv : SupplierInvoice). inv.due_date)
      (pos 1)
      "2026-01-10"
      "2026-01-31"
      invoices
      ranks
top_of-IsRanking_example =
    top_of-IsRanking whole supplier_invoices (λ (inv : SupplierInvoice). inv.due_date) keep
      (λ all. Perm.refl all) (pos 1) "2026-01-10" "2026-01-31" invoices ranks ranked

abbrev ledger : Ledger
ledger = record {
  financial_years = ok (record { id = 4; to = pos 9 } ∷ record { id = 3; to = pos 5 } ∷ []);
  vouchers = λ year from to. ok [];
}

abbrev month : ℕ → Month whole
month i = record { start = pos i; end_day = pos i; label = "m" }

abbrev no_sales : MonthMargin whole
no_sales = record { month = "m"; revenue = pos 0; cogs = pos 0; margin = pos 0 }

trend : gross_margin_trend whole ledger month (pos 2) ≡ ok (no_sales ∷ no_sales ∷ [])
unfolding gross_margin_trend latest_year_id latest_of margin_months period_metrics meter_vouchers
trend = refl
