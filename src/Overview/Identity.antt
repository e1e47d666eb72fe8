-- ===== src/Overview/Identity.antt =====
-- The overview against sums over the books: the discrepancy, the figures of the balance sheet and the
-- list of unbalanced vouchers of `BuildFinancialOverview`.
use cobalt_dingo.Prelude.{
  ℕ, ◌≡◌, refl, sym, ◌∙◌, ap, subst, ok-injective, true, List, [], ◌∷◌, arith, ok, >>=-eq-ok,
  Bool-cases, inl, inr,
}
use cobalt_dingo.Prelude.Int.{ℤ, pos, ◌+ℤ◌, ◌-ℤ◌, +ℤ-zero, zero-+ℤ, eqb_ℤ, eqb_ℤ→eq}
use cobalt_dingo.Prelude.Int64.{wrap64, InRange, wrap64_of_InRange, wrap64-add_right}
use cobalt_dingo.Ledger.{Account, Voucher, CustomerInvoice, SupplierInvoice}
use cobalt_dingo.Vouchers.{VoucherSet}
use cobalt_dingo.Overview.{Accs, UnbalancedVoucher, report_voucher, read_chart, post_vouchers}
use cobalt_dingo.Overview.Sums.{
  rows_net, vouchers_net, brought_forward, accs_net, AllHold, classes, total_accounts-total,
  total_accounts-classes, total_accounts-InRange, signs_cancel,
}
use cobalt_dingo.Overview.Posting.{
  Distinct, unbalanced_of, post_vouchers-ok, read_chart-AllHold, read_chart-net,
}
use cobalt_dingo.Overview.Report.{
  no_totals, FinancialOverview, balances, assemble, add_receivables, add_payables, build_overview,
}

pub zero-InRange : InRange (pos 0)
zero-InRange = omega arith

zero_classes : wrap64 (classes no_totals) ≡ wrap64 (pos 0)
zero_classes = simp zero-+ℤ

-- What the loops returned, when the overview was built.
pub record Built (year : ℕ) (chart : List Account) (vouchers : VoucherSet)
    (receivables : List CustomerInvoice) (payables : List SupplierInvoice) (ov : FinancialOverview)
    : Type 0 where
  pub opened : Accs
  pub accounts : Accs
  pub unbalanced : List UnbalancedVoucher
  pub owed : ℤ
  pub owing : ℤ
  pub chart_read : read_chart chart [] ≡ ok opened
  pub vouchers_posted : post_vouchers vouchers.vouchers opened [] ≡ ok (accounts, unbalanced)
  pub receivables_added : add_receivables receivables (pos 0) ≡ ok owed
  pub payables_added : add_payables payables (pos 0) ≡ ok owing
  pub assembled : assemble year vouchers receivables payables accounts unbalanced owed owing ≡ ov

module _ (year : ℕ) (chart : List Account) (vouchers : VoucherSet)
    (receivables : List CustomerInvoice) (payables : List SupplierInvoice) (ov : FinancialOverview)
    (built : build_overview year chart vouchers receivables payables ≡ ok ov) where
  pub build_overview-Built : Built year chart vouchers receivables payables ov
  unfolding build_overview
  build_overview-Built =
      let (opened, e1, r1) = >>=-eq-ok (read_chart chart []) _ built in
      let ((m, unbalanced), e2, r2) = >>=-eq-ok (post_vouchers vouchers.vouchers opened []) _ r1 in
      let (owed, e3, r3) = >>=-eq-ok (add_receivables receivables (pos 0)) _ r2 in
      let (owing, e4, r4) = >>=-eq-ok (add_payables payables (pos 0)) _ r3 in
      record {
        opened = opened;
        accounts = m;
        unbalanced = unbalanced;
        owed = owed;
        owing = owing;
        chart_read = e1;
        vouchers_posted = e2;
        receivables_added = e3;
        payables_added = e4;
        assembled = ok-injective _ ov r4;
      }

  -- The accounts and the list of unbalanced vouchers, after the loop over the vouchers.
  posted :
      (b : Built year chart vouchers receivables payables ov)
      → AllHold b.accounts
        × (wrap64 (accs_net b.accounts)
            ≡ wrap64 (accs_net b.opened +ℤ vouchers_net vouchers.vouchers))
        × (b.unbalanced ≡ unbalanced_of vouchers.vouchers)
  posted b =
      post_vouchers-ok vouchers.vouchers b.opened [] b.accounts b.unbalanced b.vouchers_posted
        (read_chart-AllHold chart [] b.opened b.chart_read tt)

  -- In a chart that names no account twice, the discrepancy of a built overview is the sum of all
  -- opening balances and of debit minus credit over all voucher rows, exactly up to the wrap of an
  -- int64.
  pub discrepancy-eq-books :
      Distinct chart
      → ov.discrepancy.minor_units
        ≡ wrap64 (brought_forward chart +ℤ vouchers_net vouchers.vouchers)
  unfolding assemble
  discrepancy-eq-books d =
      let b = build_overview-Built in
      let (hold, moved, _) = posted b in
      ap (λ (o : FinancialOverview). o.discrepancy.minor_units) (sym b.assembled)
      ∙ total_accounts-total b.accounts no_totals hold zero-InRange
      ∙ ap wrap64 (zero-+ℤ (accs_net b.accounts))
      ∙ moved
      ∙ ap (λ z. wrap64 (z +ℤ vouchers_net vouchers.vouchers))
          (read_chart-net chart b.opened b.chart_read d)

  -- The discrepancy of a built overview is assets, less equity and liabilities, less the result,
  -- plus the result that was transferred to equity, up to the wrap of an int64: no account is left
  -- out of the classes and none is counted in two.
  discrepancy-eq-balance_sheet :
      ov.discrepancy.minor_units
      ≡ wrap64 (
          ov.assets.minor_units -ℤ ov.equity_and_liabilities.minor_units -ℤ ov.result.minor_units
          +ℤ ov.result_transferred.minor_units)
  unfolding assemble
  discrepancy-eq-balance_sheet =
      let b = build_overview-Built in
      subst
        (λ (o : FinancialOverview).
          o.discrepancy.minor_units
          ≡ wrap64 (
              o.assets.minor_units -ℤ o.equity_and_liabilities.minor_units -ℤ o.result.minor_units
              +ℤ o.result_transferred.minor_units))
        b.assembled
        (sym (wrap64_of_InRange _ (total_accounts-InRange b.accounts no_totals zero-InRange))
          ∙ sym (total_accounts-classes b.accounts no_totals zero_classes)
          ∙ signs_cancel _ _ _ _ _)

  -- The vouchers that a built overview reports as unbalanced are exactly those whose rows do not
  -- sum to zero in 64 bits, in their order and each with its difference.
  unbalanced_vouchers-eq : ov.unbalanced_vouchers ≡ unbalanced_of vouchers.vouchers
  unfolding assemble
  unbalanced_vouchers-eq =
      let b = build_overview-Built in
      ap (λ (o : FinancialOverview). o.unbalanced_vouchers) (sym b.assembled) ∙ (posted b).2

-- Vouchers that all balance move nothing, up to the wrap.
balanced_vouchers : (vs : List Voucher) → unbalanced_of vs ≡ [] → wrap64 (vouchers_net vs) ≡ pos 0
balanced_vouchers [] e = wrap64_of_InRange _ zero-InRange
balanced_vouchers (v ∷ vs) e = elim (Bool-cases (eqb_ℤ (wrap64 (rows_net v.rows)) (pos 0))) [
  | inl z ↦
      let rest : unbalanced_of vs ≡ [] = rw z at e in
      sym (wrap64-add_right _ _)
      ∙ ap (λ x. wrap64 (rows_net v.rows +ℤ x)) (balanced_vouchers vs rest)
      ∙ ap wrap64 (+ℤ-zero _)
      ∙ eqb_ℤ→eq _ _ z
  | inr z ↦
      let bad : report_voucher v (wrap64 (rows_net v.rows)) ∷ unbalanced_of vs ≡ [] = rw z at e in
      cc
]

-- Books balance when their opening balances sum to zero and no voucher was reported: in a chart
-- that names no account twice, a built overview that lists no unbalanced voucher has a discrepancy
-- of exactly zero.
pub balanced_books :
    (year : ℕ) (chart : List Account) (vouchers : VoucherSet) (receivables : List CustomerInvoice)
    (payables : List SupplierInvoice) (ov : FinancialOverview)
    → build_overview year chart vouchers receivables payables ≡ ok ov
    → Distinct chart
    → brought_forward chart ≡ pos 0
    → ov.unbalanced_vouchers ≡ []
    → balances ov ≡ true
unfolding balances
balanced_books year chart vouchers receivables payables ov built d zero none_reported =
    rw
      (discrepancy-eq-books year chart vouchers receivables payables ov built d
        ∙ ap (λ z. wrap64 (z +ℤ vouchers_net vouchers.vouchers)) zero
        ∙ ap wrap64 (zero-+ℤ _)
        ∙ balanced_vouchers vouchers.vouchers (
            sym (unbalanced_vouchers-eq year chart vouchers receivables payables ov built)
            ∙ none_reported))
      refl
