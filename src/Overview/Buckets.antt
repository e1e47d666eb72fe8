-- ===== src/Overview/Buckets.antt =====
-- The ageing buckets of `WithAgeing` against the balances that they are made of.
use cobalt_dingo.Prelude.{
  ℕ, ◌≡◌, sym, ◌∙◌, ap, subst, ok-injective, List, [], ◌∷◌, Option, none, some, String, arith, ok,
  Bool-cases, inl, inr, if◌then◌else◌,
}
use cobalt_dingo.Prelude.Int.{
  ℤ, pos, leb_ℤ, ◌+ℤ◌, +ℤ-zero, zero-+ℤ, +ℤ_assoc, eq_of_parts, int_laws,
}
use cobalt_dingo.Prelude.Int64.{
  wrap64, add64, InRange, wrap64-InRange, wrap64_of_InRange, wrap64-add_left, same_bits, bits_laws,
  same_add_right,
}
use cobalt_dingo.Dates.{Instant}
use cobalt_dingo.Money.{Money, ensure_currency}
use cobalt_dingo.Ledger.{Account, CustomerInvoice, SupplierInvoice}
use cobalt_dingo.Vouchers.{VoucherSet}
use cobalt_dingo.Overview.Ageing.{
  Ageing, bucket_days, bucket_due, bucket, age_receivables, age_payables, no_ageing,
}
use cobalt_dingo.Overview.Report.{
  FinancialOverview, assemble, add_receivables, add_payables, build_overview, with_ageing,
}
use cobalt_dingo.Overview.Identity.{zero-InRange, build_overview-Built}

abbrev pub ageing_sum : Ageing → ℤ
ageing_sum b =
    b.not_yet_due.minor_units +ℤ b.overdue_0_to_30.minor_units +ℤ b.overdue_31_to_90.minor_units
    +ℤ b.overdue_90_plus.minor_units

abbrev pub receivables_sum : List CustomerInvoice → ℤ
receivables_sum [] = pos 0
receivables_sum (i ∷ is) = i.balance.minor_units +ℤ receivables_sum is

-- Cancelled invoices are not owed.
abbrev pub payables_sum : List SupplierInvoice → ℤ
payables_sum [] = pos 0
payables_sum (i ∷ is) = (if i.cancelled then pos 0 else i.balance.minor_units) +ℤ payables_sum is

-- One bucket grows by an amount: the three ways that the amount can stand in the sum.
grows :
    (a b c d n : ℤ)
    → (wrap64 (add64 a n +ℤ b +ℤ c +ℤ d) ≡ wrap64 (a +ℤ b +ℤ c +ℤ d +ℤ n))
      × (wrap64 (a +ℤ add64 b n +ℤ c +ℤ d) ≡ wrap64 (a +ℤ b +ℤ c +ℤ d +ℤ n))
      × (wrap64 (a +ℤ b +ℤ add64 c n +ℤ d) ≡ wrap64 (a +ℤ b +ℤ c +ℤ d +ℤ n))
      × (wrap64 (a +ℤ b +ℤ c +ℤ add64 d n) ≡ wrap64 (a +ℤ b +ℤ c +ℤ d +ℤ n))
grows a b c d n = (
  same_bits _ _ (simp bits_laws (omega arith)),
  same_bits _ _ (simp bits_laws (omega arith)),
  same_bits _ _ (simp bits_laws (omega arith)),
  same_bits _ _ (simp bits_laws (omega arith)),
)

minor_units-ensure_currency :
    (m : Money) (c : String) → (ensure_currency m c).minor_units ≡ m.minor_units
unfolding ensure_currency
minor_units-ensure_currency m c = ground arith

bucket_days-sum :
    (days : ℤ) (amount : Money) (b : Ageing)
    → wrap64 (ageing_sum (bucket_days days amount b)) ≡ wrap64 (ageing_sum b +ℤ amount.minor_units)
unfolding bucket_days
bucket_days-sum days amount b =
    let (g0, g1, g2, g3) =
      grows b.not_yet_due.minor_units b.overdue_0_to_30.minor_units b.overdue_31_to_90.minor_units
        b.overdue_90_plus.minor_units amount.minor_units in
    elim (Bool-cases (leb_ℤ days (pos 0))) [
      | inl e ↦ rw e g0
      | inr e ↦ rw e (elim (Bool-cases (leb_ℤ days (pos 30))) [
        | inl e ↦ rw e g1
        | inr e ↦
            rw e (elim (Bool-cases (leb_ℤ days (pos 90))) [ inl e ↦ rw e g2 | inr e ↦ rw e g3 ])
      ])
    ]

bucket_due-sum :
    (due : Option Instant) (amount : Money) (today : Instant) (b : Ageing)
    → wrap64 (ageing_sum (bucket_due due amount today b))
      ≡ wrap64 (ageing_sum b +ℤ amount.minor_units)
unfolding bucket_due
bucket_due-sum none amount today b =
    (grows b.not_yet_due.minor_units b.overdue_0_to_30.minor_units b.overdue_31_to_90.minor_units
      b.overdue_90_plus.minor_units amount.minor_units).3
bucket_due-sum (some due) amount today b = bucket_days-sum _ amount b

bucket-sum :
    (due : String) (amount : Money) (today : Instant) (b : Ageing)
    → wrap64 (ageing_sum (bucket due amount today b)) ≡ wrap64 (ageing_sum b +ℤ amount.minor_units)
unfolding bucket
bucket-sum due amount today b = bucket_due-sum _ amount today _ ∙ simp minor_units-ensure_currency

age_receivables-sum :
    (today : Instant) (is : List CustomerInvoice) (b : Ageing)
    → wrap64 (ageing_sum (age_receivables today is b)) ≡ wrap64 (ageing_sum b +ℤ receivables_sum is)
unfolding age_receivables
age_receivables-sum today [] b = ap wrap64 (sym (+ℤ-zero (ageing_sum b)))
age_receivables-sum today (i ∷ is) b =
    age_receivables-sum today is _
    ∙ same_add_right _ _ (receivables_sum is) (bucket-sum i.due_date i.balance today b)
    ∙ ap wrap64 (+ℤ_assoc _ _ _)

age_payables-sum :
    (today : Instant) (is : List SupplierInvoice) (b : Ageing)
    → wrap64 (ageing_sum (age_payables today is b)) ≡ wrap64 (ageing_sum b +ℤ payables_sum is)
unfolding age_payables
age_payables-sum today [] b = ap wrap64 (sym (+ℤ-zero (ageing_sum b)))
age_payables-sum today (i ∷ is) b = elim (Bool-cases i.cancelled) [
  | inl e ↦ rw e (
      age_payables-sum today is b
      ∙ ap (λ z. wrap64 (ageing_sum b +ℤ z)) (sym (zero-+ℤ (payables_sum is))))
  | inr e ↦ rw e (
      age_payables-sum today is _
      ∙ same_add_right _ _ (payables_sum is) (bucket-sum i.due_date i.balance today b)
      ∙ ap wrap64 (+ℤ_assoc _ _ _))
]

add_receivables-ok :
    (is : List CustomerInvoice) (n n' : ℤ)
    → add_receivables is n ≡ ok n'
    → InRange n
    → n' ≡ wrap64 (n +ℤ receivables_sum is)
unfolding add_receivables
add_receivables-ok [] n n' e r =
    sym (ok-injective n n' e) ∙ sym (wrap64_of_InRange n r) ∙ ap wrap64 (sym (+ℤ-zero n))
add_receivables-ok (i ∷ is) n n' e r =
    let e1 : add_receivables is (add64 n i.balance.minor_units) ≡ ok n' = ground arith in
    add_receivables-ok is _ n' e1 (wrap64-InRange _)
    ∙ wrap64-add_left _ _
    ∙ ap wrap64 (+ℤ_assoc n i.balance.minor_units (receivables_sum is))

add_payables-ok :
    (is : List SupplierInvoice) (n n' : ℤ)
    → add_payables is n ≡ ok n'
    → InRange n
    → n' ≡ wrap64 (n +ℤ payables_sum is)
unfolding add_payables
add_payables-ok [] n n' e r =
    sym (ok-injective n n' e) ∙ sym (wrap64_of_InRange n r) ∙ ap wrap64 (sym (+ℤ-zero n))
add_payables-ok (i ∷ is) n n' e r = elim (Bool-cases i.cancelled) [
  | inl c ↦
      let e1 : add_payables is n ≡ ok n' = rw c at e in
      rw c
        (add_payables-ok is n n' e1 r ∙ ap (λ z. wrap64 (n +ℤ z)) (sym (zero-+ℤ (payables_sum is))))
  | inr c ↦
      let e1 : add_payables is (add64 n i.balance.minor_units) ≡ ok n' = ground arith in
      rw c (
        add_payables-ok is _ n' e1 (wrap64-InRange _)
        ∙ wrap64-add_left _ _
        ∙ ap wrap64 (+ℤ_assoc n i.balance.minor_units (payables_sum is)))
]

from_zero : (n : ℤ) → wrap64 (ageing_sum no_ageing +ℤ n) ≡ wrap64 (pos 0 +ℤ n)
from_zero n = ap wrap64 (eq_of_parts _ _ (omega int_laws))

-- However the dates fall and whether they parse or not, the four receivable buckets of a built
-- overview add up to its receivables, and the four payable buckets to its payables, up to the
-- wrap of an int64. Both are the balances of the invoices, less those of cancelled payables.
pub with_ageing-conserves :
    (year : ℕ) (chart : List Account) (vouchers : VoucherSet) (receivables : List CustomerInvoice)
    (payables : List SupplierInvoice) (ov : FinancialOverview) (today : Instant)
    → build_overview year chart vouchers receivables payables ≡ ok ov
    → let aged = with_ageing today ov in
      (wrap64 (ageing_sum aged.receivables_ageing) ≡ aged.receivables.minor_units)
      × (wrap64 (ageing_sum aged.payables_ageing) ≡ aged.payables.minor_units)
      × (aged.receivables.minor_units ≡ wrap64 (receivables_sum receivables))
      × (aged.payables.minor_units ≡ wrap64 (payables_sum payables))
unfolding with_ageing assemble
with_ageing-conserves year chart vouchers receivables payables ov today built =
    let b = build_overview-Built year chart vouchers receivables payables ov built in
    let owed = add_receivables-ok receivables (pos 0) b.owed b.receivables_added zero-InRange in
    let owing = add_payables-ok payables (pos 0) b.owing b.payables_added zero-InRange in
    subst
      (λ (o : FinancialOverview).
        (wrap64 (ageing_sum (age_receivables today o.receivable_invoices o.receivables_ageing))
          ≡ o.receivables.minor_units)
        × (wrap64 (ageing_sum (age_payables today o.payable_invoices o.payables_ageing))
            ≡ o.payables.minor_units)
        × (o.receivables.minor_units ≡ wrap64 (receivables_sum receivables))
        × (o.payables.minor_units ≡ wrap64 (payables_sum payables)))
      b.assembled
      (
        age_receivables-sum today receivables no_ageing ∙ from_zero _ ∙ sym owed,
        age_payables-sum today payables no_ageing ∙ from_zero _ ∙ sym owing,
        owed ∙ ap wrap64 (zero-+ℤ _),
        owing ∙ ap wrap64 (zero-+ℤ _),
      )
