-- ===== src/Analysis/Counts.antt =====
-- What the counts add up to.
use cobalt_dingo.Prelude.{
  ℕ, suc, ◌+◌, ◌≡◌, refl, ◌∙◌, subst, str_eq, Bool, true, false, Option, none, some, List, [], ◌∷◌,
  String, arith, length, select, Bool-cases, inl, inr, if◌then◌else◌,
}
use cobalt_dingo.Prelude.Int.{ℤ, pos, leb_ℤ}
use cobalt_dingo.Dates.{Instant, parse_date, sub_time, whole_days}
use cobalt_dingo.Ledger.{Voucher}
use cobalt_dingo.Analysis.{
  AgingReport, no_dates, age_days, age_date, age_dates, aging_buckets, truncate_day, AccountSummary,
  touches_rows, note_date, summarise, summarise_account,
}

abbrev pub report_total : AgingReport → ℕ
report_total r = r.current + r.days_1_to_30 + r.days_31_to_60 + r.days_61_to_90 + r.over_90

abbrev pub is_some : {A : Type 0} → Option A → Bool
is_some none = false
is_some (some a) = true

abbrev pub parseable : List String → List String
parseable = select (λ s. is_some (parse_date s))

age_days-total :
    (days : ℤ) (r : AgingReport) → report_total (age_days days r) ≡ suc (report_total r)
unfolding age_days
age_days-total days r = elim (Bool-cases (leb_ℤ days (pos 0))) [
  | inl a ↦ rw a (omega arith)
  | inr a ↦ elim (Bool-cases (leb_ℤ days (pos 30))) [
    | inl b ↦ rw (a, b) (omega arith)
    | inr b ↦ elim (Bool-cases (leb_ℤ days (pos 60))) [
      | inl c ↦ rw (a, b, c) (omega arith)
      | inr c ↦ elim (Bool-cases (leb_ℤ days (pos 90))) [
        | inl d ↦ rw (a, b, c, d) (omega arith)
        | inr d ↦ rw (a, b, c, d) (omega arith)
      ]
    ]
  ]
]

parsed_step :
    (today : Instant) (s : String) (dates : List String) (r : AgingReport) (o : Option Instant)
    → report_total (age_date today o r) + length (parseable dates)
      ≡ report_total r + length (if is_some o then s ∷ parseable dates else parseable dates)
unfolding age_date
parsed_step today s dates r none = refl
parsed_step today s dates r (some d) =
    omega (arith, age_days-total (whole_days (sub_time today d)) r)

age_dates-total :
    (today : Instant) (dates : List String) (r : AgingReport)
    → report_total (age_dates today dates r) ≡ report_total r + length (parseable dates)
unfolding age_dates
age_dates-total today [] r = omega arith
age_dates-total today (s ∷ dates) r =
    age_dates-total today dates (age_date today (parse_date s) r)
    ∙ parsed_step today s dates r (parse_date s)

-- The buckets count each due date that parses once, whatever the day; a date that does not parse is
-- in none of them.
aging_buckets-total :
    (dates : List String) (today : Instant)
    → report_total (aging_buckets dates today) ≡ length (parseable dates)
unfolding aging_buckets
aging_buckets-total dates today =
    age_dates-total (truncate_day today) dates no_dates ∙ (omega arith)

note_date-count :
    (d : String) (out : AccountSummary)
    → ((note_date d out).count ≡ out.count) × ((note_date d out).account ≡ out.account)
unfolding note_date
note_date-count d out = elim (Bool-cases (str_eq d "")) [
  | inl e ↦ rw e (refl, refl)
  | inr e ↦ rw e (refl, refl)
]

summarise-count :
    (vouchers : List Voucher) (out : AccountSummary)
    → (summarise vouchers out).count
      ≡ out.count + length (select (λ v. touches_rows v.rows out.account) vouchers)
unfolding summarise
summarise-count [] out = omega arith
summarise-count (v ∷ vouchers) out = elim (Bool-cases (touches_rows v.rows out.account)) [
  | inl e ↦
      let next = record out { count = suc out.count } in
      let (counts, same) = note_date-count v.transaction_date next in
      let after = note_date v.transaction_date next in
      let touching = λ (a : ℕ). length (select (λ (x : Voucher). touches_rows x.rows a) vouchers) in
      let total : (summarise vouchers after).count ≡ after.count + touching out.account =
        subst (λ a. (summarise vouchers after).count ≡ after.count + touching a) same
          (summarise-count vouchers after) in
      rw e (omega (arith, total, counts))
  | inr e ↦ rw e (summarise-count vouchers out)
]

-- An account's count is the number of vouchers with a row on it, each once, however many rows.
summarise_account-count :
    (vouchers : List Voucher) (account : ℕ)
    → (summarise_account vouchers account).count
      ≡ length (select (λ v. touches_rows v.rows account) vouchers)
unfolding summarise_account
summarise_account-count vouchers account =
    summarise-count vouchers (record { account = account; count = 0; earliest = ""; latest = "" })
    ∙ omega arith
