-- ===== src/Overview/Currency.antt =====
-- The currency checks of `BuildFinancialOverview`: what refuses an overview.
use cobalt_dingo.Prelude.{
  ℕ, ◌≡◌, refl, ◌↔◌, ◌⊎◌, inl, inr, true, All, List, [], ◌∷◌, String, arith, ok, ◌>>=◌, ◌>>◌,
  >>=-eq-ok, Bool-cases, str_eq_iff,
}
use cobalt_dingo.Prelude.Int.{ℤ, pos, eqb_ℤ→eq}
use cobalt_dingo.Money.{Money, assert_currency}
use cobalt_dingo.Ledger.{Account, VoucherRow, Voucher, CustomerInvoice, SupplierInvoice}
use cobalt_dingo.Vouchers.{VoucherSet}
use cobalt_dingo.Overview.{
  Checked, Place, Accs, UnbalancedVoucher, currency, read_chart, post_rows, post_vouchers,
}
use cobalt_dingo.Overview.Report.{add_receivables, add_payables, build_overview}

-- A figure that may be summed: the zero value, or an amount in SEK.
abbrev pub IsSek : Money → Type 0
IsSek m = ((m.minor_units ≡ pos 0) × (m.currency ≡ "")) ⊎ (m.currency ≡ "SEK")

abbrev pub RowIsSek : VoucherRow → Type 0
RowIsSek r = IsSek r.debit × IsSek r.credit

-- A cancelled payable is not summed.
abbrev pub PayableIsSek : SupplierInvoice → Type 0
PayableIsSek i = (i.cancelled ≡ true) ⊎ IsSek i.balance

-- A step that succeeds, with some result.
abbrev pub Succeeds : {A : Type 0} → Checked A → Type 0
Succeeds {A} r = (a : A) × (r ≡ ok a)

assert_currency_iff : (m : Money) (p : Place) → (assert_currency m currency p ≡ ok tt) ↔ IsSek m
unfolding assert_currency
assert_currency_iff m p = (
  (λ h. ground (
    arith,
    str_eq_iff m.currency "",
    str_eq_iff m.currency "SEK",
    eqb_ℤ→eq m.minor_units (pos 0),
  )),
  (λ h. ground (arith, str_eq_iff m.currency "", str_eq_iff m.currency "SEK")),
)

-- A currency check in front of the rest of a loop.
guarded :
    {A : Type 0} (m : Money) (p : Place) (rest : Checked A)
    → Succeeds (assert_currency m currency p >> rest) ↔ (IsSek m × Succeeds rest)
guarded m p rest = (
  (λ (a, e).
      let (u, passed, e') = >>=-eq-ok (assert_currency m currency p) (λ _. rest) e in
      ((assert_currency_iff m p).0 passed, (a, e'))),
  (λ (sek, (a, e)). (a, rw ((assert_currency_iff m p).1 sek) e)),
)

read_chart_iff :
    (chart : List Account) (m : Accs)
    → Succeeds (read_chart chart m) ↔ All (λ a. IsSek a.balance_bf) chart
unfolding read_chart
read_chart_iff [] m = ((λ _. tt), (λ _. (m, refl)))
read_chart_iff (a ∷ chart) m =
    let rest = read_chart_iff chart _ in
    (
      (λ s. let (b, s1) = (guarded _ _ _).0 s in (b, rest.0 s1)),
      (λ all. (guarded _ _ _).1 (all.0, rest.1 all.1)),
    )

post_rows_iff :
    (series : String) (number : ℤ) (rows : List VoucherRow) (m : Accs) (diff : ℤ)
    → Succeeds (post_rows series number rows m diff) ↔ All RowIsSek rows
unfolding post_rows
post_rows_iff series number [] m diff = ((λ _. tt), (λ _. ((m, diff), refl)))
post_rows_iff series number (r ∷ rows) m diff =
    let rest = post_rows_iff series number rows _ _ in
    (
      (λ s.
          let (d, s1) = (guarded _ _ _).0 s in
          let (c, s2) = (guarded _ _ _).0 s1 in ((d, c), rest.0 s2)),
      (λ ((d, c), all). (guarded _ _ _).1 (d, (guarded _ _ _).1 (c, rest.1 all))),
    )

-- A step followed by a total rest.
bind_iff :
    {A B : Type 0} {P Q : Type 0} (r : Checked A) (f : A → Checked B)
    → Succeeds r ↔ P
    → ((a : A) → Succeeds (f a) ↔ Q)
    → Succeeds (r >>= f) ↔ (P × Q)
bind_iff r f hr hf = (
  (λ (b, e). let (a, e1, e2) = >>=-eq-ok r f e in (hr.0 (a, e1), (hf a).0 (b, e2))),
  (λ (p, q). let (a, e1) = hr.1 p in let (b, e2) = (hf a).1 q in (b, rw e1 e2)),
)

post_vouchers_iff :
    (vs : List Voucher) (m : Accs) (out : List UnbalancedVoucher)
    → Succeeds (post_vouchers vs m out) ↔ All (λ v. All RowIsSek v.rows) vs
unfolding post_vouchers
post_vouchers_iff [] m out = ((λ _. tt), (λ _. ((m, out), refl)))
post_vouchers_iff (v ∷ vs) m out =
    bind_iff _ _ (post_rows_iff v.series v.number v.rows m (pos 0)) (λ _. post_vouchers_iff vs _ _)

add_receivables_iff :
    (is : List CustomerInvoice) (n : ℤ)
    → Succeeds (add_receivables is n) ↔ All (λ i. IsSek i.balance) is
unfolding add_receivables
add_receivables_iff [] n = ((λ _. tt), (λ _. (n, refl)))
add_receivables_iff (i ∷ is) n =
    let rest = add_receivables_iff is _ in
    (
      (λ s. let (b, s1) = (guarded _ _ _).0 s in (b, rest.0 s1)),
      (λ all. (guarded _ _ _).1 (all.0, rest.1 all.1)),
    )

add_payables_iff :
    (is : List SupplierInvoice) (n : ℤ) → Succeeds (add_payables is n) ↔ All PayableIsSek is
unfolding add_payables
add_payables_iff [] n = ((λ _. tt), (λ _. (n, refl)))
add_payables_iff (i ∷ is) n = elim (Bool-cases i.cancelled) [
  | inl e ↦
      let rest = add_payables_iff is n in rw e ((λ s. (inl refl, rest.0 s)), (λ all. rest.1 all.1))
  | inr e ↦
      let rest = add_payables_iff is _ in
      rw e (
        (λ s. let (b, s1) = (guarded _ _ _).0 s in (inr b, rest.0 s1)),
        (λ all. (guarded _ _ _).1 (elim all.0 [ inl c ↦ cc | inr b ↦ b ], rest.1 all.1)),
      )
]

-- The overview is built exactly when every opening balance, every debit and credit of every
-- voucher row, every receivable and every payable that is not cancelled is zero with no currency
-- or in SEK: it never sums mixed currencies, and refuses nothing else.
build_overview_iff :
    (year : ℕ) (chart : List Account) (vouchers : VoucherSet) (receivables : List CustomerInvoice)
    (payables : List SupplierInvoice)
    → Succeeds (build_overview year chart vouchers receivables payables) ↔ (
        All (λ a. IsSek a.balance_bf) chart
        × (All (λ v. All RowIsSek v.rows) vouchers.vouchers
            × (All (λ i. IsSek i.balance) receivables × (All PayableIsSek payables × Unit {0}))))
unfolding build_overview
build_overview_iff year chart vouchers receivables payables =
    bind_iff _ _ (read_chart_iff chart []) (λ _.
      bind_iff _ _ (post_vouchers_iff vouchers.vouchers _ []) (λ _.
        bind_iff _ _ (add_receivables_iff receivables (pos 0)) (λ _.
          bind_iff _ _ (add_payables_iff payables (pos 0)) (λ _. ((λ _. tt), (λ _. (_, refl)))))))
