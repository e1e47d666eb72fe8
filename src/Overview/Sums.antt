-- ===== src/Overview/Sums.antt =====
-- Exact sums over the books, and what the totals of the overview make of them in 64 bits.
use cobalt_dingo.Prelude.{
  ℕ, ◌≡◌, sym, ◌∙◌, ap, ◌⊎◌, inl, inr, true, false, List, [], ◌∷◌, ltb, ◌==◌, arith, Bool-cases,
}
use cobalt_dingo.Prelude.Int.{ℤ, pos, ◌+ℤ◌, ◌-ℤ◌, int_laws, parts_of_eq, eq_of_parts}
use cobalt_dingo.Prelude.Int64.{
  wrap64, add64, sub64, neg64, InRange, wrap64-InRange, wrap64_of_InRange, same_bits, bits_of_same,
  bits_laws, bits-lt, bits-+ℤ,
}
use cobalt_dingo.Ledger.{Account, VoucherRow, Voucher}
use cobalt_dingo.Overview.{Acc, Accs, get, put, result_transfer_account, or_absent}
use cobalt_dingo.Overview.Report.{Totals, closing, add_closing, total_accounts}

-- What a row moves, and what the rows of all vouchers move, exactly.
abbrev pub row_net : VoucherRow → ℤ
row_net r = r.debit.minor_units -ℤ r.credit.minor_units

abbrev pub rows_net : List VoucherRow → ℤ
rows_net [] = pos 0
rows_net (r ∷ rs) = row_net r +ℤ rows_net rs

abbrev pub vouchers_net : List Voucher → ℤ
vouchers_net [] = pos 0
vouchers_net (v ∷ vs) = rows_net v.rows +ℤ vouchers_net vs

abbrev pub brought_forward : List Account → ℤ
brought_forward [] = pos 0
brought_forward (a ∷ chart) = a.balance_bf.minor_units +ℤ brought_forward chart

abbrev pub acc_net : Acc → ℤ
acc_net a = a.opening +ℤ a.debit -ℤ a.credit

abbrev pub accs_net : Accs → ℤ
accs_net [] = pos 0
accs_net ((n, a) ∷ m) = acc_net a +ℤ accs_net m

-- Replacing an entry replaces its share of the sum.
pub accs_net-put :
    (k : ℕ) (b : Acc) (m : Accs)
    → accs_net (put k b m) +ℤ acc_net (or_absent (get k m)) ≡ accs_net m +ℤ acc_net b
unfolding get put
accs_net-put k b [] = omega int_laws
accs_net-put k b ((j, a) ∷ m) = elim (Bool-cases (k == j)) [
  | inl e ↦ rw e (omega int_laws)
  | inr e ↦ rw e (omega (int_laws, parts_of_eq _ _ (accs_net-put k b m)))
]

-- An account that was never seen holds nothing.
abbrev pub Holds : Acc → Type 0
Holds a = (a.seen ≡ true) ⊎ (acc_net a ≡ pos 0)

abbrev pub AllHold : Accs → Type 0
AllHold [] = Unit
AllHold ((n, a) ∷ m) = Holds a × AllHold m

pub AllHold-put : (k : ℕ) (b : Acc) (m : Accs) → Holds b → AllHold m → AllHold (put k b m)
unfolding put
AllHold-put k b [] hb h = (hb, tt)
AllHold-put k b ((j, a) ∷ m) hb h = ground (arith, AllHold-put k b m hb h.1)

add_closing-total : (n : ℕ) (c : ℤ) (t : Totals) → (add_closing n c t).total ≡ add64 t.total c
unfolding add_closing
add_closing-total n c t = ground arith

same_total :
    (t : ℤ) (a : Acc) (rest : ℤ)
    → wrap64 (add64 t (closing a) +ℤ rest) ≡ wrap64 (t +ℤ (acc_net a +ℤ rest))
same_total t a rest = same_bits _ _ (
    simp bits_laws (
      omega (arith, bits-lt t, bits-lt a.opening, bits-lt a.debit, bits-lt a.credit, bits-lt rest)))

quiet : (a : Acc) → a.seen ≡ false → Holds a → acc_net a ≡ pos 0
quiet a e (inl s) = cc
quiet a e (inr z) = z

skip_zero : (a : Acc) (rest : ℤ) → acc_net a ≡ pos 0 → rest ≡ acc_net a +ℤ rest
skip_zero a rest z = rw z (omega int_laws)

pub total_accounts-total :
    (m : Accs) (t : Totals)
    → AllHold m
    → InRange t.total
    → (total_accounts m t).total ≡ wrap64 (t.total +ℤ accs_net m)
unfolding total_accounts
total_accounts-total [] t h r =
    sym (wrap64_of_InRange _ r)
    ∙ ap wrap64 (eq_of_parts t.total (t.total +ℤ pos 0) (omega int_laws))
total_accounts-total ((n, a) ∷ m) t h r = elim (Bool-cases a.seen) [
  | inl e ↦ rw e (
      total_accounts-total m (add_closing n (closing a) t) h.1
        (rw add_closing-total (wrap64-InRange _))
      ∙ rw add_closing-total (same_total t.total a (accs_net m)))
  | inr e ↦ rw e (
      total_accounts-total m t h.1 r
      ∙ ap (λ z. wrap64 (t.total +ℤ z)) (skip_zero a (accs_net m) (quiet a e h.0)))
]

abbrev pub classes : Totals → ℤ
classes t = t.assets +ℤ t.eq_liab +ℤ t.revenue +ℤ t.costs +ℤ t.result_transferred

-- One of several addends grows by `c`, and so does the total.
addend_grows :
    (f rest total c x y : ℤ)
    → x ≡ rest +ℤ f
    → y ≡ rest +ℤ add64 f c
    → wrap64 x ≡ wrap64 total
    → wrap64 y ≡ wrap64 (add64 total c)
addend_grows f rest total c x y ex ey h = rw ey (
    same_bits _ _ (
      simp bits_laws (
        omega (
          arith,
          bits_of_same (rest +ℤ f) total (ap wrap64 (sym ex) ∙ h),
          bits-+ℤ rest f,
          bits-lt total,
        ))))

add_closing-classes :
    (n : ℕ) (c : ℤ) (t : Totals)
    → wrap64 (classes t) ≡ wrap64 t.total
    → wrap64 (classes (add_closing n c t)) ≡ wrap64 (add_closing n c t).total
unfolding add_closing
add_closing-classes n c t h = elim (Bool-cases (ltb n 2000)) [
  | inl e ↦ rw e (
      addend_grows t.assets (t.eq_liab +ℤ t.revenue +ℤ t.costs +ℤ t.result_transferred) t.total c _
        _ (omega int_laws) (omega int_laws) h)
  | inr e ↦ rw e (elim (Bool-cases (ltb n 3000)) [
    | inl e ↦ rw e (
        addend_grows t.eq_liab (t.assets +ℤ t.revenue +ℤ t.costs +ℤ t.result_transferred) t.total c
          _ _ (omega int_laws) (omega int_laws) h)
    | inr e ↦ rw e (elim (Bool-cases (ltb n 4000)) [
      | inl e ↦ rw e (
          addend_grows t.revenue (t.assets +ℤ t.eq_liab +ℤ t.costs +ℤ t.result_transferred) t.total
            c _ _ (omega int_laws) (omega int_laws) h)
      | inr e ↦ rw e (elim (Bool-cases (n == result_transfer_account)) [
        | inl e ↦ rw e (
            addend_grows t.result_transferred (t.assets +ℤ t.eq_liab +ℤ t.revenue +ℤ t.costs)
              t.total c _ _ (omega int_laws) (omega int_laws) h)
        | inr e ↦ rw e (
            addend_grows t.costs (t.assets +ℤ t.eq_liab +ℤ t.revenue +ℤ t.result_transferred)
              t.total c _ _ (omega int_laws) (omega int_laws) h)
      ])
    ])
  ])
]

pub total_accounts-classes :
    (m : Accs) (t : Totals)
    → wrap64 (classes t) ≡ wrap64 t.total
    → wrap64 (classes (total_accounts m t)) ≡ wrap64 (total_accounts m t).total
unfolding total_accounts
total_accounts-classes [] t h = h
total_accounts-classes ((n, a) ∷ m) t h = elim (Bool-cases a.seen) [
  | inl e ↦ rw e (
      total_accounts-classes m (add_closing n (closing a) t)
        (add_closing-classes n (closing a) t h))
  | inr e ↦ rw e (total_accounts-classes m t h)
]

pub total_accounts-InRange :
    (m : Accs) (t : Totals) → InRange t.total → InRange (total_accounts m t).total
unfolding total_accounts
total_accounts-InRange [] t r = r
total_accounts-InRange ((n, a) ∷ m) t r = elim (Bool-cases a.seen) [
  | inl e ↦ rw e (
      total_accounts-InRange m (add_closing n (closing a) t)
        (rw add_closing-total (wrap64-InRange _)))
  | inr e ↦ rw e (total_accounts-InRange m t r)
]

-- The signs of the balance sheet: what is credit-balanced is negated.
pub signs_cancel :
    (a e r c t : ℤ)
    → wrap64 (a +ℤ e +ℤ r +ℤ c +ℤ t) ≡ wrap64 (a -ℤ neg64 e -ℤ sub64 (neg64 r) c +ℤ t)
signs_cancel a e r c t =
    same_bits _ _
      (simp bits_laws (omega (arith, bits-lt a, bits-lt e, bits-lt r, bits-lt c, bits-lt t)))
