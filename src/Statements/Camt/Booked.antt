-- ===== src/Statements/Camt/Booked.antt =====
-- What a camt.053 statement is read as.
use cobalt_dingo.Prelude.{
  ℕ, suc, ◌≡◌, refl, sym, ap, ap₂, not, ◌>>=◌, ◌∙◌, Bool, true, false, List, [], ◌∷◌, map, select,
  String, All, Bool-cases, inl, inr, Result, ok, err, ok-injective, >>=-eq-ok, wrap_err,
  if◌then◌else◌, subst,
}
use cobalt_dingo.Prelude.Int.{ℤ, pos, ◌-ℤ◌}
use cobalt_dingo.Prelude.Int64.{InRange, neg64, wrap64-InRange}
use cobalt_dingo.Dates.{codes}
use cobalt_dingo.Money.{Money}
use cobalt_dingo.Statements.{Transaction, Statement}
use cobalt_dingo.Statements.Decimal.{parse_decimal_minor}
use cobalt_dingo.Statements.Decimal.Bounds.{parse_decimal_minor-InRange}
use cobalt_dingo.Words.{trim_str}
use cobalt_dingo.Statements.Camt.{
  CamtEntry, CamtBalance, CamtStatement, EntryError, BalanceError, bad_entry, entry_to_transaction,
  is_booked, read_entries, read_balance, find_balance, search_balance, has_code, is_debit,
  account_of, read_statement, parse_camt053, with_details, bad_amount, bad_booking_date,
  bad_value_date, parse_camt_date, CamtTxDetails, bad_balance, balance_by_code, bad_start, bad_end,
  bad_balances, parse_camt_time,
}

choose-InRange : (b : Bool) (n : ℤ) → InRange n → InRange (if b then neg64 n else n)
choose-InRange true n h = wrap64-InRange (pos 0 -ℤ n)
choose-InRange false n h = h

wrap_err-ok : {E F A : Type 0} (f : E → F) (r : Result E A) (a : A) → wrap_err f r ≡ ok a → r ≡ ok a
wrap_err-ok f (ok b) a e = ap ok (ok-injective _ _ e)
wrap_err-ok f (err x) a e = cc

-- A list that was read entry by entry.
read_one :
    {E F : Type 0} (f : F → E) (r : Result F Transaction) (rest : Result E (List Transaction))
    (txs : List Transaction)
    → (wrap_err f r >>= λ tx. rest >>= λ more. ok (tx ∷ more)) ≡ ok txs
    → (tx : Transaction) × (more : List Transaction) × (r ≡ ok tx)
      × (rest ≡ ok more)
      × (tx ∷ more ≡ txs)
read_one f r rest txs e =
    let (tx, first, e1) = >>=-eq-ok (wrap_err f r) _ e in
    let (more, second, e2) = >>=-eq-ok rest _ e1 in
    (tx, more, wrap_err-ok f r tx first, second, ok-injective _ _ e2)

-- A transaction whose amount an int64 can hold.
abbrev pub HasAmountInRange : Transaction → Type 0
HasAmountInRange tx = InRange tx.amount.minor_units

module _ (fold : ℕ → ℕ) where
  with_details-amount :
      (details : List CamtTxDetails) (tx : Transaction)
      → HasAmountInRange tx
      → HasAmountInRange (with_details fold details tx)
  with_details-amount [] tx h = h
  with_details-amount (d ∷ more) tx h = h

  entry_to_transaction-InRange :
      (e : CamtEntry) (account source_ref : String) (tx : Transaction)
      → entry_to_transaction fold e account source_ref ≡ ok tx
      → HasAmountInRange tx
  unfolding entry_to_transaction
  entry_to_transaction-InRange e account source_ref tx h =
      let minor_of = parse_decimal_minor (codes e.amount.value) in
      let (minor, a, h1) = >>=-eq-ok (wrap_err bad_amount minor_of) _ h in
      let (booking, b, h2) =
        >>=-eq-ok (wrap_err bad_booking_date (parse_camt_date e.booking_date)) _ h1 in
      let (value, c, h3) =
        >>=-eq-ok (wrap_err bad_value_date (parse_camt_date e.value_date)) _ h2 in
      subst HasAmountInRange (ok-injective _ _ h3) (
        with_details-amount e.transactions _ (
          parse_decimal_minor-InRange (codes e.amount.value) minor
            (wrap_err-ok bad_amount minor_of minor a)))

  -- The entries that are booked, each read on its own.
  abbrev pub booked_of : List CamtEntry → String → String → List (Result EntryError Transaction)
  booked_of entries account source_ref =
      map (λ e. entry_to_transaction fold e account source_ref) (select (is_booked fold) entries)

  read_entries-booked :
      (id account source_ref : String) (i : ℕ) (entries : List CamtEntry) (txs : List Transaction)
      → read_entries fold id account source_ref i entries ≡ ok txs
      → (booked_of entries account source_ref ≡ map ok txs) × All HasAmountInRange txs
  unfolding read_entries
  read_entries-booked id account source_ref i [] txs e =
      subst (λ l. (booked_of [] account source_ref ≡ map ok l) × All HasAmountInRange l)
        (ok-injective _ _ e) (refl, tt)
  read_entries-booked id account source_ref i (x ∷ entries) txs e =
      let read = λ (c : CamtEntry). entry_to_transaction fold c account source_ref in
      let rest = read_entries fold id account source_ref (suc i) entries in
      let one = wrap_err (bad_entry id i) (read x) >>= λ tx. rest >>= λ more. ok (tx ∷ more) in
      let kept = select (is_booked fold) entries in
      elim (Bool-cases (is_booked fold x)) [
        | inl b ↦
            let now = sym (ap (λ c. if not c then rest else one) b) ∙ e in
            let (tx, more, first, second, whole) =
              read_one (bad_entry id i) (read x) rest txs now in
            let (same, fits) =
              read_entries-booked id account source_ref (suc i) entries more second in
            let all =
              ap (λ c. map read (if c then x ∷ kept else kept)) b
              ∙ ap₂ (λ r rs. r ∷ rs) first same in
            subst
              (λ l.
                (booked_of (x ∷ entries) account source_ref ≡ map ok l) × All HasAmountInRange l)
              whole (all, (entry_to_transaction-InRange x account source_ref tx first, fits))
        | inr n ↦
            let now = sym (ap (λ c. if not c then rest else one) n) ∙ e in
            let (same, fits) = read_entries-booked id account source_ref (suc i) entries txs now in
            (ap (λ c. map read (if c then x ∷ kept else kept)) n ∙ same, fits)
      ]

  read_balance-InRange :
      (want : String) (b : CamtBalance) (m : Money)
      → read_balance fold want b ≡ ok m
      → InRange m.minor_units
  read_balance-InRange want b m e =
      let minor_of = parse_decimal_minor (codes b.amount.value) in
      let (minor, a, h) = >>=-eq-ok (wrap_err (bad_balance want) minor_of) _ e in
      let fits =
        parse_decimal_minor-InRange (codes b.amount.value) minor
          (wrap_err-ok (bad_balance want) minor_of minor a) in
      subst (λ (x : Money). InRange x.minor_units) (ok-injective _ _ h)
        (choose-InRange (is_debit fold b.credit_debit) minor fits)

  IsReadInRange : Result BalanceError Money → Type 0
  IsReadInRange r = (m : Money) → r ≡ ok m → InRange m.minor_units

  find_balance-InRange :
      (want : String) (balances : List CamtBalance) (next : Result BalanceError Money)
      → IsReadInRange next
      → IsReadInRange (find_balance fold want balances next)
  unfolding find_balance IsReadInRange
  find_balance-InRange want [] next h m e = h m e
  find_balance-InRange want (b ∷ balances) next h m e =
      let rest = find_balance fold want balances next in
      elim (Bool-cases (has_code fold want b)) [
        | inl t ↦
            read_balance-InRange want b m
              (sym (ap (λ c. if c then read_balance fold want b else rest) t) ∙ e)
        | inr n ↦
            find_balance-InRange want balances next h m
              (sym (ap (λ c. if c then read_balance fold want b else rest) n) ∙ e)
      ]

  search_balance-InRange :
      (balances : List CamtBalance) (all wants : List String)
      → IsReadInRange (search_balance fold balances all wants)
  unfolding search_balance IsReadInRange
  search_balance-InRange balances all [] m e = cc
  search_balance-InRange balances all (want ∷ wants) m e =
      find_balance-InRange want balances (search_balance fold balances all wants)
        (search_balance-InRange balances all wants) m e

  read_statement-booked :
      (raw : CamtStatement) (source_ref : String) (st : Statement)
      → read_statement fold raw source_ref ≡ ok st
      → (booked_of raw.entries (account_of raw) source_ref ≡ map ok st.transactions)
        × All HasAmountInRange st.transactions
        × InRange st.opening_balance.minor_units
        × InRange st.closing_balance.minor_units
  unfolding read_statement IsReadInRange
  read_statement-booked raw source_ref st e =
      let id = trim_str raw.id in
      let opening_codes = "OPBD" ∷ "PRCD" ∷ [] in
      let opening_of = balance_by_code fold raw.balances opening_codes in
      let closing_of = balance_by_code fold raw.balances ("CLBD" ∷ []) in
      let (from, e1, h1) = >>=-eq-ok (wrap_err bad_start (parse_camt_time raw.from)) _ e in
      let (to, e2, h2) = >>=-eq-ok (wrap_err bad_end (parse_camt_time raw.to)) _ h1 in
      let (opening, e3, h3) = >>=-eq-ok (wrap_err (bad_balances id) opening_of) _ h2 in
      let (closing, e4, h4) = >>=-eq-ok (wrap_err (bad_balances id) closing_of) _ h3 in
      let (txs, e5, h5) =
        >>=-eq-ok (read_entries fold id (account_of raw) source_ref 1 raw.entries) _ h4 in
      let (same, fits) = read_entries-booked id (account_of raw) source_ref 1 raw.entries txs e5 in
      subst
        (λ (s : Statement).
          (booked_of raw.entries (account_of raw) source_ref ≡ map ok s.transactions)
          × All HasAmountInRange s.transactions
          × InRange s.opening_balance.minor_units
          × InRange s.closing_balance.minor_units)
        (ok-injective _ _ h5)
        (
          same,
          fits,
          search_balance-InRange raw.balances opening_codes opening_codes opening
              (wrap_err-ok (bad_balances id) opening_of opening e3),
          search_balance-InRange raw.balances ("CLBD" ∷ []) ("CLBD" ∷ []) closing
              (wrap_err-ok (bad_balances id) closing_of closing e4),
        )

  -- A document that is read has one statement. The transactions are its booked entries, all of them
  -- and in their order, each read without an error; and their amounts and the two balances are ones
  -- that an int64 can hold.
  pub parse_camt053-booked :
      (doc : Result String (List CamtStatement)) (source_ref : String) (st : Statement)
      → parse_camt053 fold doc source_ref ≡ ok st
      → (raw : CamtStatement) × (doc ≡ ok (raw ∷ []))
        × (booked_of raw.entries (account_of raw) source_ref ≡ map ok st.transactions)
        × All HasAmountInRange st.transactions
        × InRange st.opening_balance.minor_units
        × InRange st.closing_balance.minor_units
  unfolding parse_camt053
  parse_camt053-booked (err x) source_ref st e = cc
  parse_camt053-booked (ok []) source_ref st e = cc
  parse_camt053-booked (ok (raw ∷ [])) source_ref st e =
      let (same, fits, opening, closing) = read_statement-booked raw source_ref st e in
      (raw, refl, same, fits, opening, closing)
  parse_camt053-booked (ok (raw ∷ other ∷ more)) source_ref st e = cc
