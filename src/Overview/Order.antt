-- ===== src/Overview/Order.antt =====
-- The order in which Go walks the map of accounts, which is random: the loop over `byNumber` of
-- `BuildFinancialOverview` and the sort after it.
use mathlib.Core.List.{Permᴰ}
use cobalt_dingo.Prelude.{
  ℕ, ◌≡◌, ◌≢◌, refl, sym, ◌∙◌, ap, ap₂, subst, All, List, [], ◌∷◌, arith, Bool-cases, ==_iff, inl,
  inr, String, ok, ok-injective, ◌>>=◌, >>=-eq-ok, ◌==◌, if◌then◌else◌,
}
use cobalt_dingo.Prelude.Int.{ℤ, pos}
use cobalt_dingo.Prelude.Int64.{add64, sub64, same_bits, bits_laws}
use cobalt_dingo.Ledger.{Account, VoucherRow, Voucher, CustomerInvoice, SupplierInvoice}
use cobalt_dingo.Vouchers.{VoucherSet}
use cobalt_dingo.Overview.{
  Acc, Accs, AccountPosition, UnbalancedVoucher, get, put, or_absent, post, opening_acc, read_chart,
  post_rows, post_vouchers,
}
use cobalt_dingo.Overview.Report.{
  Totals, closing, position, add_closing, total_accounts, insert_position, sort_positions,
  positions_of, assemble, no_totals,
}

add64-right_comm : (t c d : ℤ) → add64 (add64 t c) d ≡ add64 (add64 t d) c
add64-right_comm t c d = same_bits _ _ (simp bits_laws (omega arith))

add_closing_comm :
    (n k : ℕ) (c d : ℤ) (t : Totals)
    → add_closing n c (add_closing k d t) ≡ add_closing k d (add_closing n c t)
unfolding add_closing
add_closing_comm n k c d t = ground (
  arith,
  add64-right_comm t.total d c,
  add64-right_comm t.assets d c,
  add64-right_comm t.eq_liab d c,
  add64-right_comm t.revenue d c,
  add64-right_comm t.costs d c,
  add64-right_comm t.result_transferred d c,
)

-- What the walk does at one entry.
abbrev step : ℕ × Acc → Totals → Totals
step (n, a) t = if a.seen then add_closing n (closing a) t else t

step_comm : (x y : ℕ × Acc) (t : Totals) → step y (step x t) ≡ step x (step y t)
step_comm x y t = elim (Bool-cases x.1.seen) [
  | inl e ↦ elim (Bool-cases y.1.seen) [
    | inl f ↦ rw (e, f) (add_closing_comm y.0 x.0 (closing y.1) (closing x.1) t)
    | inr f ↦ rw (e, f) refl
  ]
  | inr e ↦ rw e refl
]

total_accounts-perm :
    {m m' : Accs} → Permᴰ m m' → (t : Totals) → total_accounts m t ≡ total_accounts m' t
unfolding total_accounts
total_accounts-perm Permᴰ.nil t = refl
total_accounts-perm (Permᴰ.cons {b = b} e p) t = rw e (total_accounts-perm p (step b t))
total_accounts-perm (Permᴰ.swap {a' = a'} {b' = b'} {l = l} e f) t =
    rw (e, f) (ap (total_accounts l) (step_comm b' a' t))
total_accounts-perm (Permᴰ.trans p q) t = total_accounts-perm p t ∙ total_accounts-perm q t

insert_position_comm :
    (p q : AccountPosition) (ps : List AccountPosition)
    → p.number ≢ q.number
    → insert_position p (insert_position q ps) ≡ insert_position q (insert_position p ps)
unfolding insert_position
insert_position_comm p q [] h = ground arith
insert_position_comm p q (x ∷ ps) h = ground (arith, insert_position_comm p q ps h)

-- No account number stands twice.
abbrev pub DistinctKeys : Accs → Type 0
DistinctKeys [] = Unit
DistinctKeys ((n, a) ∷ m) = All (λ e. e.0 ≢ n) m × DistinctKeys m

All-perm : {A : Type 0} (P : A → Type 0) {l l' : List A} → Permᴰ l l' → All P l → All P l'
All-perm P Permᴰ.nil h = h
All-perm P (Permᴰ.cons e p) h = (subst P e h.0, All-perm P p h.1)
All-perm P (Permᴰ.swap e f) h = (subst P f h.1.0, (subst P e h.0, h.1.1))
All-perm P (Permᴰ.trans p q) h = All-perm P q (All-perm P p h)

DistinctKeys-swap : (x y : ℕ × Acc) (l : Accs) → DistinctKeys (x ∷ y ∷ l) → DistinctKeys (y ∷ x ∷ l)
DistinctKeys-swap x y l d = (((λ h. d.0.0 (sym h)), d.1.0), (d.0.1, d.1.1))

DistinctKeys-perm : {m m' : Accs} → Permᴰ m m' → DistinctKeys m → DistinctKeys m'
DistinctKeys-perm Permᴰ.nil d = d
DistinctKeys-perm (Permᴰ.cons {b = b} {l₁ = l} e p) d = (
  All-perm (λ x. x.0 ≢ b.0) p (subst (λ (z : ℕ × Acc). All (λ x. x.0 ≢ z.0) l) e d.0),
  DistinctKeys-perm p d.1,
)
DistinctKeys-perm (Permᴰ.swap {a = a} {b = b} {b' = b'} {l = l} e f) d =
    subst (λ z. DistinctKeys (z ∷ b' ∷ l)) f
      (subst (λ z. DistinctKeys (b ∷ z ∷ l)) e (DistinctKeys-swap a b l d))
DistinctKeys-perm (Permᴰ.trans p q) d = DistinctKeys-perm q (DistinctKeys-perm p d)

-- Insertion of what an entry shows, if anything.
abbrev show : ℕ × Acc → List AccountPosition → List AccountPosition
show (n, a) ps = if a.seen then insert_position (position n a) ps else ps

sort-cons :
    (x : ℕ × Acc) (m : Accs)
    → sort_positions (positions_of (x ∷ m)) ≡ show x (sort_positions (positions_of m))
unfolding positions_of sort_positions
sort-cons x m = ground arith

show_comm :
    (x y : ℕ × Acc) (ps : List AccountPosition)
    → x.0 ≢ y.0
    → show x (show y ps) ≡ show y (show x ps)
show_comm x y ps h = elim (Bool-cases x.1.seen) [
  | inl e ↦ elim (Bool-cases y.1.seen) [
    | inl f ↦ rw (e, f) (insert_position_comm (position x.0 x.1) (position y.0 y.1) ps h)
    | inr f ↦ rw (e, f) refl
  ]
  | inr e ↦ rw e refl
]

sort_positions-perm :
    {m m' : Accs}
    → Permᴰ m m'
    → DistinctKeys m
    → sort_positions (positions_of m) ≡ sort_positions (positions_of m')
sort_positions-perm Permᴰ.nil d = refl
sort_positions-perm (Permᴰ.cons {a = a} {b = b} {l₁ = l} {l₂ = l'} e p) d =
    sort-cons a l ∙ ap₂ show e (sort_positions-perm p d.1) ∙ sym (sort-cons b l')
sort_positions-perm (Permᴰ.swap {a = a} {b = b} {a' = a'} {b' = b'} {l = l} e f) d =
    rw (← e, ← f)
      (sort-cons a (b ∷ l)
        ∙ ap (show a) (sort-cons b l)
        ∙ show_comm a b _ (λ h. d.0.0 (sym h))
        ∙ ap (show b) (sym (sort-cons a l))
        ∙ sym (sort-cons b (a ∷ l)))
sort_positions-perm (Permᴰ.trans p q) d =
    sort_positions-perm p d ∙ sort_positions-perm q (DistinctKeys-perm p d)

-- The loops keep the keys distinct.
All-put :
    (P : ℕ → Type 0) (k : ℕ) (a : Acc) (m : Accs)
    → P k
    → All (λ e. P e.0) m
    → All (λ e. P e.0) (put k a m)
unfolding put
All-put P k a [] pk h = (pk, tt)
All-put P k a ((j, b) ∷ m) pk h = ground (arith, All-put P k a m pk h.1)

DistinctKeys-put : (k : ℕ) (a : Acc) (m : Accs) → DistinctKeys m → DistinctKeys (put k a m)
unfolding put
DistinctKeys-put k a [] d = (tt, tt)
DistinctKeys-put k a ((j, b) ∷ m) d = elim (Bool-cases (k == j)) [
  | inl e ↦ rw e (subst (λ z. All (λ x. x.0 ≢ z) m) (sym ((==_iff k j).0 e)) d.0, d.1)
  | inr e ↦ rw e (All-put (λ z. z ≢ j) k a m (ground arith) d.0, DistinctKeys-put k a m d.1)
]

read_chart-DistinctKeys :
    (chart : List Account) (m m' : Accs)
    → read_chart chart m ≡ ok m'
    → DistinctKeys m
    → DistinctKeys m'
unfolding read_chart
read_chart-DistinctKeys [] m m' e d = subst DistinctKeys (ok-injective m m' e) d
read_chart-DistinctKeys (a ∷ chart) m m' e d =
    let m1 = put a.number (opening_acc a) m in
    let e1 : read_chart chart m1 ≡ ok m' = ground arith in
    read_chart-DistinctKeys chart m1 m' e1 (DistinctKeys-put a.number _ m d)

post_rows-DistinctKeys :
    (series : String) (number : ℤ) (rows : List VoucherRow) (m : Accs) (diff : ℤ) (m' : Accs)
    (d : ℤ)
    → post_rows series number rows m diff ≡ ok (m', d)
    → DistinctKeys m
    → DistinctKeys m'
unfolding post_rows
post_rows-DistinctKeys series number [] m diff m' d e h =
    subst (λ s. DistinctKeys s.0) (ok-injective (m, diff) (m', d) e) h
post_rows-DistinctKeys series number (row ∷ rows) m diff m' d e h =
    let m1 = put row.account (post row (or_absent (get row.account m))) m in
    let diff1 = add64 diff (sub64 row.debit.minor_units row.credit.minor_units) in
    let e1 : post_rows series number rows m1 diff1 ≡ ok (m', d) = ground arith in
    post_rows-DistinctKeys series number rows m1 diff1 m' d e1 (DistinctKeys-put row.account _ m h)

post_vouchers-DistinctKeys :
    (vs : List Voucher) (m : Accs) (out : List UnbalancedVoucher) (m' : Accs)
    (out' : List UnbalancedVoucher)
    → post_vouchers vs m out ≡ ok (m', out')
    → DistinctKeys m
    → DistinctKeys m'
unfolding post_vouchers
post_vouchers-DistinctKeys [] m out m' out' e h =
    subst (λ s. DistinctKeys s.0) (ok-injective (m, out) (m', out') e) h
post_vouchers-DistinctKeys (v ∷ vs) m out m' out' e h =
    let ((m1, diff), e1, e2) = >>=-eq-ok (post_rows v.series v.number v.rows m (pos 0)) _ e in
    post_vouchers-DistinctKeys vs m1 _ m' out' e2
      (post_rows-DistinctKeys v.series v.number v.rows m (pos 0) m1 diff e1 h)

-- Whatever the order in which Go walks the map of accounts, the overview is the same: the report
-- made from any permutation of the accounts that the loops collected is the report that was built.
assemble-map_order :
    (year : ℕ) (chart : List Account) (vouchers : VoucherSet) (receivables : List CustomerInvoice)
    (payables : List SupplierInvoice) (accounts walked : Accs) (unbalanced : List UnbalancedVoucher)
    (owed owing : ℤ)
    → (do opened ← read_chart chart []; post_vouchers vouchers.vouchers opened [])
      ≡ ok (accounts, unbalanced)
    → Permᴰ accounts walked
    → assemble year vouchers receivables payables walked unbalanced owed owing
      ≡ assemble year vouchers receivables payables accounts unbalanced owed owing
unfolding assemble
assemble-map_order year chart vouchers receivables payables accounts walked unbalanced owed owing e
      p =
    let (opened, e1, e2) =
      >>=-eq-ok (read_chart chart []) (λ m. post_vouchers vouchers.vouchers m []) e in
    let distinct =
      post_vouchers-DistinctKeys vouchers.vouchers opened [] accounts unbalanced e2
        (read_chart-DistinctKeys chart [] opened e1 tt) in
    rw (← sort_positions-perm p distinct, ← total_accounts-perm p no_totals) refl
