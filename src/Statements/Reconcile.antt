-- ===== src/Statements/Reconcile.antt =====
-- What `CheckBalance` accepts, and what it notices.
use cobalt_dingo.Prelude.{
  ◌≡◌, ◌≢◌, ◌↔◌, refl, sym, true, ◌∙◌, ap, Bool-cases, inl, inr, List, [], ◌∷◌, ◌++◌, arith, ok,
}
use cobalt_dingo.Prelude.Int.{
  ℤ, pos, ◌+ℤ◌, eqb_ℤ, eqb_ℤ→eq, +ℤ-zero, zero-+ℤ, +ℤ_assoc, int_laws, eq_of_parts,
}
use cobalt_dingo.Prelude.Int64.{
  wrap64, wrap64-add_left, wrap64-add_right, bits_of_same, bits_laws, bits-lt, same_bits,
}
use cobalt_dingo.Statements.{Transaction, Statement, signed_minor_units, net_of, check_balance}

-- The exact net of the rows.
abbrev pub total : List Transaction → ℤ
total [] = pos 0
total (t ∷ ts) = signed_minor_units t +ℤ total ts

net_of-total : (ts : List Transaction) (n : ℤ) → wrap64 (net_of ts n) ≡ wrap64 (n +ℤ total ts)
unfolding net_of
net_of-total [] n = ap wrap64 (sym (+ℤ-zero n))
net_of-total (t ∷ ts) n =
    net_of-total ts (wrap64 (n +ℤ signed_minor_units t))
    ∙ wrap64-add_left (n +ℤ signed_minor_units t) (total ts)
    ∙ ap wrap64 (+ℤ_assoc n (signed_minor_units t) (total ts))

got-total :
    (o : ℤ) (ts : List Transaction) → wrap64 (o +ℤ net_of ts (pos 0)) ≡ wrap64 (o +ℤ total ts)
got-total o ts =
    sym (wrap64-add_right o (net_of ts (pos 0)))
    ∙ ap (λ z. wrap64 (o +ℤ z)) (net_of-total ts (pos 0))
    ∙ wrap64-add_right o (pos 0 +ℤ total ts)
    ∙ ap (λ z. wrap64 (o +ℤ z)) (zero-+ℤ (total ts))

eqb_ℤ_refl : (a b : ℤ) → a ≡ b → eqb_ℤ a b ≡ true
eqb_ℤ_refl a b e = ground arith

-- A statement is accepted exactly when its opening balance and the net of its rows, debits counted
-- as negative, make its closing balance in 64 bits.
check_balance_iff :
    (s : Statement)
    → (check_balance s ≡ ok tt) ↔ (
        wrap64 (s.opening_balance.minor_units +ℤ total s.transactions)
        ≡ s.closing_balance.minor_units)
unfolding check_balance
check_balance_iff s =
    let o = s.opening_balance.minor_units in
    let want = s.closing_balance.minor_units in
    let got = wrap64 (o +ℤ net_of s.transactions (pos 0)) in
    let e = got-total o s.transactions in
    elim (Bool-cases (eqb_ℤ got want)) [
      | inl t ↦ ((λ h. sym e ∙ eqb_ℤ→eq got want t), (λ h. rw t refl))
      | inr f ↦ ((λ h. let bad = rw f at h in cc), (λ h. let t = eqb_ℤ_refl got want (e ∙ h) in cc))
    ]

exchange : (x s n : ℤ) → x +ℤ (s +ℤ n) ≡ s +ℤ (x +ℤ n)
exchange x s n = eq_of_parts _ _ (omega int_laws)

total-insert :
    (before after : List Transaction) (t : Transaction)
    → total (before ++ t ∷ after) ≡ signed_minor_units t +ℤ total (before ++ after)
total-insert [] after t = refl
total-insert (x ∷ before) after t =
    ap (λ z. signed_minor_units x +ℤ z) (total-insert before after t)
    ∙ exchange (signed_minor_units x) (signed_minor_units t) (total (before ++ after))

cancel : (o s n : ℤ) → wrap64 (o +ℤ (s +ℤ n)) ≡ wrap64 (o +ℤ n) → wrap64 s ≡ wrap64 (pos 0)
cancel o s n e =
    let h = simp bits_laws at (bits_of_same _ _ e) in
    same_bits s (pos 0) (simp bits_laws (omega (arith, h, bits-lt o, bits-lt s, bits-lt n)))

-- A lost row is noticed. When a statement is accepted and one row with an amount other than zero is
-- taken out of it, wherever it stands, the rest is not accepted; read the other way round, a row
-- that stands once too often is noticed.
pub check_balance-lost_row :
    (s : Statement) (before after : List Transaction) (t : Transaction)
    → wrap64 (signed_minor_units t) ≢ wrap64 (pos 0)
    → check_balance (record s { transactions = before ++ t ∷ after }) ≡ ok tt
    → check_balance (record s { transactions = before ++ after }) ≢ ok tt
check_balance-lost_row s before after t moves whole rest =
    let o = s.opening_balance.minor_units in
    let a = (check_balance_iff (record s { transactions = before ++ t ∷ after })).0 whole in
    let b = (check_balance_iff (record s { transactions = before ++ after })).0 rest in
    let inserted = ap (λ z. wrap64 (o +ℤ z)) (total-insert before after t) in
    moves (cancel o (signed_minor_units t) (total (before ++ after)) (sym inserted ∙ a ∙ sym b))
