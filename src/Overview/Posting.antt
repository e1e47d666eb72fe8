-- ===== src/Overview/Posting.antt =====
-- The loops of the overview over the chart and the vouchers, when they end without an error.
use cobalt_dingo.Prelude.{
  ℕ, ◌≡◌, ◌≢◌, refl, All, subst, ok-injective, sym, ◌∙◌, ap, inl, inr, none, List, [], ◌∷◌, ◌++◌,
  String, if◌then◌else◌, arith, ok, >>=-eq-ok, Bool-cases,
}
use cobalt_dingo.Prelude.Int.{
  ℤ, pos, eqb_ℤ, eqb_ℤ→eq, ◌+ℤ◌, int_laws, +ℤ_assoc, parts_of_eq, +ℤ-zero, zero-+ℤ, eq_of_parts,
}
use cobalt_dingo.Prelude.Int64.{
  wrap64, add64, sub64, InRange, wrap64-InRange, wrap64_of_InRange, same_bits, bits_laws, bits-lt,
  same_of_exchange, same_add_right, wrap_laws,
}
use mathlib.Core.List.{append-nil, append_assoc}
use cobalt_dingo.Ledger.{Account, VoucherRow, Voucher}
use cobalt_dingo.Overview.{
  UnbalancedVoucher, report_voucher, Acc, Accs, get, put, or_absent, post, opening_acc, read_chart,
  post_rows, post_vouchers,
}
use cobalt_dingo.Overview.Sums.{
  row_net, rows_net, vouchers_net, Holds, brought_forward, acc_net, accs_net, accs_net-put, AllHold,
  AllHold-put,
}

-- What one posted row does to its account.
acc_net-post :
    (r : VoucherRow) (a : Acc) → wrap64 (acc_net (post r a)) ≡ wrap64 (acc_net a +ℤ row_net r)
acc_net-post r a = same_bits _ _ (
    simp bits_laws (
      omega (
        arith,
        bits-lt a.opening,
        bits-lt a.debit,
        bits-lt a.credit,
        bits-lt r.debit.minor_units,
        bits-lt r.credit.minor_units,
      )))

accs_net-post :
    (r : VoucherRow) (m : Accs)
    → wrap64 (accs_net (put r.account (post r (or_absent (get r.account m))) m))
      ≡ wrap64 (accs_net m +ℤ row_net r)
accs_net-post r m =
    let a = or_absent (get r.account m) in
    same_of_exchange _ (accs_net m) (acc_net a) (acc_net (post r a)) (row_net r)
      (accs_net-put r.account (post r a) m) (acc_net-post r a)

diff_step :
    (diff : ℤ) (row : VoucherRow) (rest : ℤ)
    → wrap64 (add64 diff (sub64 row.debit.minor_units row.credit.minor_units) +ℤ rest)
      ≡ wrap64 (diff +ℤ (row_net row +ℤ rest))
diff_step diff row rest = simp wrap_laws (ap wrap64 (+ℤ_assoc diff (row_net row) rest))

-- The loops, when they end without an error.
pub post_rows-ok :
    (series : String) (number : ℤ) (rows : List VoucherRow) (m : Accs) (diff : ℤ) (m' : Accs)
    (d : ℤ)
    → post_rows series number rows m diff ≡ ok (m', d)
    → AllHold m
    → InRange diff
    → AllHold m'
      × (wrap64 (accs_net m') ≡ wrap64 (accs_net m +ℤ rows_net rows))
      × (d ≡ wrap64 (diff +ℤ rows_net rows))
unfolding post_rows
post_rows-ok series number [] m diff m' d e h r =
    subst
      (λ s.
        AllHold s.0
        × (wrap64 (accs_net s.0) ≡ wrap64 (accs_net m +ℤ pos 0))
        × (s.1 ≡ wrap64 (diff +ℤ pos 0)))
      (ok-injective (m, diff) (m', d) e)
      (
        h,
        ap wrap64 (sym (+ℤ-zero (accs_net m))),
        sym (wrap64_of_InRange diff r) ∙ ap wrap64 (sym (+ℤ-zero diff)),
      )
post_rows-ok series number (row ∷ rows) m diff m' d e h r =
    let m1 = put row.account (post row (or_absent (get row.account m))) m in
    let diff1 = add64 diff (sub64 row.debit.minor_units row.credit.minor_units) in
    let e1 : post_rows series number rows m1 diff1 ≡ ok (m', d) = ground arith in
    let (hold, net, total) =
      post_rows-ok series number rows m1 diff1 m' d e1 (AllHold-put row.account _ m (inl refl) h)
        (wrap64-InRange _) in
    (
      hold,
      net
          ∙ same_add_right _ _ (rows_net rows) (accs_net-post row m)
          ∙ ap wrap64 (+ℤ_assoc (accs_net m) (row_net row) (rows_net rows)),
      total ∙ diff_step diff row (rows_net rows),
    )

-- The vouchers whose rows do not sum to zero, in their order, each with its difference.
abbrev pub unbalanced_of : List Voucher → List UnbalancedVoucher
unbalanced_of [] = []
unbalanced_of (v ∷ vs) =
    let diff = wrap64 (rows_net v.rows) in
    if eqb_ℤ diff (pos 0) then unbalanced_of vs else report_voucher v diff ∷ unbalanced_of vs

append_report :
    (v : Voucher) (diff : ℤ) (out rest : List UnbalancedVoucher)
    → (if eqb_ℤ diff (pos 0) then out else out ++ report_voucher v diff ∷ []) ++ rest
      ≡ out ++ (if eqb_ℤ diff (pos 0) then rest else report_voucher v diff ∷ rest)
append_report v diff out rest = elim (Bool-cases (eqb_ℤ diff (pos 0))) [
  | inl e ↦ rw e refl
  | inr e ↦ rw e (append_assoc out (report_voucher v diff ∷ []) rest)
]

pub post_vouchers-ok :
    (vs : List Voucher) (m : Accs) (out : List UnbalancedVoucher) (m' : Accs)
    (out' : List UnbalancedVoucher)
    → post_vouchers vs m out ≡ ok (m', out')
    → AllHold m
    → AllHold m'
      × (wrap64 (accs_net m') ≡ wrap64 (accs_net m +ℤ vouchers_net vs))
      × (out' ≡ out ++ unbalanced_of vs)
unfolding post_vouchers
post_vouchers-ok [] m out m' out' e h =
    subst
      (λ s.
        AllHold s.0 × (wrap64 (accs_net s.0) ≡ wrap64 (accs_net m +ℤ pos 0)) × (s.1 ≡ out ++ []))
      (ok-injective (m, out) (m', out') e)
      (h, ap wrap64 (sym (+ℤ-zero (accs_net m))), sym (append-nil out))
post_vouchers-ok (v ∷ vs) m out m' out' e h =
    let ((m1, diff), e1, e2) = >>=-eq-ok (post_rows v.series v.number v.rows m (pos 0)) _ e in
    let (hold1, net1, total1) =
      post_rows-ok v.series v.number v.rows m (pos 0) m1 diff e1 h (omega arith) in
    let (hold, net, list) = post_vouchers-ok vs m1 _ m' out' e2 hold1 in
    let ediff = total1 ∙ ap wrap64 (zero-+ℤ (rows_net v.rows)) in
    (
      hold,
      net
          ∙ same_add_right _ _ (vouchers_net vs) net1
          ∙ ap wrap64 (+ℤ_assoc (accs_net m) (rows_net v.rows) (vouchers_net vs)),
      list
          ∙ append_report v diff out (unbalanced_of vs)
          ∙ ap
              (λ d.
                out
                ++ (if eqb_ℤ d (pos 0)
                    then unbalanced_of vs
                    else report_voucher v d ∷ unbalanced_of vs))
              (total1 ∙ ap wrap64 (zero-+ℤ (rows_net v.rows))),
    )

-- A chart that names no account twice.
abbrev pub Distinct : List Account → Type 0
Distinct [] = Unit
Distinct (a ∷ chart) = All (λ b. b.number ≢ a.number) chart × Distinct chart

abbrev Unread : List Account → Accs → Type 0
Unread chart m = All (λ a. get a.number m ≡ none) chart

get-put_ne : (k j : ℕ) (b : Acc) (m : Accs) → k ≢ j → get k (put j b m) ≡ get k m
unfolding get put
get-put_ne k j b [] h = ground arith
get-put_ne k j b ((i, a) ∷ m) h = ground (arith, get-put_ne k j b m h)

Unread-put :
    (chart : List Account) (j : ℕ) (b : Acc) (m : Accs)
    → All (λ c. c.number ≢ j) chart
    → Unread chart m
    → Unread chart (put j b m)
Unread-put [] j b m n u = tt
Unread-put (c ∷ chart) j b m n u =
    (get-put_ne c.number j b m n.0 ∙ u.0, Unread-put chart j b m n.1 u.1)

accs_net-opening : (a : Account) → acc_net (opening_acc a) ≡ a.balance_bf.minor_units
accs_net-opening a = eq_of_parts _ _ (omega int_laws)

opening_acc-Holds : (a : Account) → Holds (opening_acc a)
opening_acc-Holds a = elim (Bool-cases (eqb_ℤ a.balance_bf.minor_units (pos 0))) [
  | inl e ↦ inr (accs_net-opening a ∙ eqb_ℤ→eq _ _ e)
  | inr e ↦ inl (rw e refl)
]

accs_net-open :
    (a : Account) (m : Accs)
    → get a.number m ≡ none
    → accs_net (put a.number (opening_acc a) m) ≡ accs_net m +ℤ a.balance_bf.minor_units
accs_net-open a m u = eq_of_parts _ _ (
    omega (
      int_laws,
      parts_of_eq _ _ (rw u at (accs_net-put a.number (opening_acc a) m)),
      parts_of_eq _ _ (accs_net-opening a),
    ))

pub read_chart-AllHold :
    (chart : List Account) (m m' : Accs) → read_chart chart m ≡ ok m' → AllHold m → AllHold m'
unfolding read_chart
read_chart-AllHold [] m m' e h = subst AllHold (ok-injective m m' e) h
read_chart-AllHold (a ∷ chart) m m' e h =
    let m1 = put a.number (opening_acc a) m in
    let e1 : read_chart chart m1 ≡ ok m' = ground arith in
    read_chart-AllHold chart m1 m' e1 (AllHold-put a.number _ m (opening_acc-Holds a) h)

accs_net-read_chart :
    (chart : List Account) (m m' : Accs)
    → read_chart chart m ≡ ok m'
    → Distinct chart
    → Unread chart m
    → accs_net m' ≡ accs_net m +ℤ brought_forward chart
unfolding read_chart
accs_net-read_chart [] m m' e d u =
    ap accs_net (sym (ok-injective m m' e)) ∙ sym (+ℤ-zero (accs_net m))
accs_net-read_chart (a ∷ chart) m m' e d u =
    let m1 = put a.number (opening_acc a) m in
    let e1 : read_chart chart m1 ≡ ok m' = ground arith in
    accs_net-read_chart chart m1 m' e1 d.1 (Unread-put chart a.number _ m d.0 u.1)
    ∙ ap (λ z. z +ℤ brought_forward chart) (accs_net-open a m u.0)
    ∙ +ℤ_assoc _ _ _

Unread-nil : (chart : List Account) → Unread chart []
unfolding get
Unread-nil [] = tt
Unread-nil (a ∷ chart) = (refl, Unread-nil chart)

-- The chart read into no accounts.
pub read_chart-net :
    (chart : List Account) (m : Accs)
    → read_chart chart [] ≡ ok m
    → Distinct chart
    → accs_net m ≡ brought_forward chart
read_chart-net chart m e d =
    accs_net-read_chart chart [] m e d (Unread-nil chart) ∙ zero-+ℤ (brought_forward chart)
