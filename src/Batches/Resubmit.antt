-- ===== src/Batches/Resubmit.antt =====
-- `Submit` over the PostgreSQL repository. The repository only inserts, so that the save which
-- marks a batch as submitted meets the primary key; `Submit` drops that error.
use cobalt_dingo.Prelude.{
  ◌≡◌, ◌≢◌, refl, sym, ◌∙◌, ap, true, false, none, some, List, [], ◌∷◌, String, arith, str_eq,
  str_eq_iff, Result, ok, err, ok-injective, Option-cases, inl, inr, wrap_err,
}
use cobalt_dingo.Dates.{Instant}
use cobalt_dingo.Batches.{draft, submitted, Batch, DebtorAccount, Ports}
use cobalt_dingo.Batches.Service.{submit, submit_batch, mark_submitted}
use cobalt_dingo.Batches.Repo
use cobalt_dingo.Batches.Repo.{
  BatchRow, Tables, RepoError, duplicate_id, not_found, to_batch, items_of, has_id, find_row,
  insert_batch, transaction,
}

-- The tables, and what the bank has been asked to pay, latest first.
pub record World (R : Type 0) : Type 0 where
  pub tables : Tables R
  pub sent : List (Batch R × DebtorAccount)

module _ {R : Type 0} (text : RepoError → String) (new_id : String) (at_time : Instant)
    (account_of : String → Result String DebtorAccount)
    (bank : Batch R → DebtorAccount → Result String String) where
  -- The service's ports over the repository, with a bank that answers and remembers.
  abbrev pub repo_ports : Ports R (World R)
  repo_ports = record {
    save = λ b w.
        let (r, t) = Repo.save new_id at_time b w.tables in
        (wrap_err text r, record w { tables = t });
    get = λ tenant id w. (wrap_err text (Repo.get tenant id w.tables), w);
    default_debtor_account = λ tenant w. (account_of tenant, w);
    pay = λ b a w. (bank b a, record w { sent = (b, a) ∷ w.sent });
    erp = none;
    now = λ w. (at_time, w);
  }

find_row-has_id :
    (tenant id : String) (rows : List BatchRow) (r : BatchRow)
    → find_row tenant id rows ≡ some r
    → (r.id ≡ id) × (has_id id rows ≡ true)
unfolding find_row has_id
find_row-has_id tenant id [] r e = cc
find_row-has_id tenant id (x ∷ rows) r e =
    ground (arith, str_eq_iff id x.id, find_row-has_id tenant id rows r)

module _ {R : Type 0} where
  -- A batch that is stored under its own identifier is never stored again.
  pub save-stored :
      (new_id : String) (at_time : Instant) (b : Batch R) (t : Tables R)
      → b.id ≢ ""
      → has_id b.id t.batches ≡ true
      → Repo.save new_id at_time b t ≡ (err duplicate_id, t)
  unfolding Repo.save transaction insert_batch
  save-stored new_id at_time b t named stored =
      let e : str_eq b.id "" ≡ false = ground (arith, str_eq_iff b.id "") in rw (e, stored) refl

  get-has_id :
      (tenant id : String) (t : Tables R) (b : Batch R)
      → Repo.get tenant id t ≡ ok b
      → (b.id ≡ id) × (has_id id t.batches ≡ true)
  unfolding Repo.get
  get-has_id tenant id t b e = elim (Option-cases (find_row tenant id t.batches)) [
    | inl n ↦ let missing : Repo.get tenant id t ≡ err not_found = rw (n, Repo.get) refl in cc
    | inr (r, q) ↦
        let read : Repo.get tenant id t ≡ ok (to_batch r (items_of id t.items)) =
          rw (q, Repo.get) refl in
        let found = ok-injective (to_batch r (items_of id t.items)) b (sym read ∙ e) in
        let (same, has) = find_row-has_id tenant id t.batches r q in
        (ap (λ (x : Batch R). x.id) (sym found) ∙ same, has)
  ]

module _ {R : Type 0} (text : RepoError → String) (new_id : String) (at_time : Instant)
    (account_of : String → Result String DebtorAccount)
    (bank : Batch R → DebtorAccount → Result String String) (tenant id : String) where
  abbrev ports : Ports R (World R)
  ports = repo_ports text new_id at_time account_of bank

  submit-stored :
      (w : World R) (b : Batch R) (a : DebtorAccount) (ref : String)
      → Repo.get tenant id w.tables ≡ ok b
      → b.status ≡ draft
      → id ≢ ""
      → account_of tenant ≡ ok a
      → bank b a ≡ ok ref
      → submit ports tenant id w ≡ (ok ref, record w { sent = (b, a) ∷ w.sent })
  unfolding submit submit_batch mark_submitted
  submit-stored w b a ref got is named known paid =
      let (same, has) = get-has_id tenant id w.tables b got in
      let marked : Batch R = record b { status = submitted; submitted_at = some at_time } in
      let stored : Repo.save new_id at_time marked w.tables ≡ (err duplicate_id, w.tables) =
        save-stored new_id at_time marked w.tables (λ e. named (sym same ∙ e))
          (ap (λ i. has_id i w.tables.batches) same ∙ has) in
      simp (got, is, known, paid, stored)

  -- A stored draft with an identifier, of a tenant with a default account, is paid once for each
  -- time that it is submitted, if the bank takes it: `Submit` succeeds again on the same batch,
  -- the bank is asked twice, and the tables do not change. So the guard on the status does not
  -- stop a second payment.
  pub submit-submit :
      (w : World R) (b : Batch R) (a : DebtorAccount) (ref : String)
      → Repo.get tenant id w.tables ≡ ok b
      → b.status ≡ draft
      → id ≢ ""
      → account_of tenant ≡ ok a
      → bank b a ≡ ok ref
      → let (first, w1) = submit ports tenant id w in
        let (second, w2) = submit ports tenant id w1 in
        (first ≡ ok ref)
        × (second ≡ ok ref)
        × (w2.tables ≡ w.tables)
        × (w2.sent ≡ (b, a) ∷ (b, a) ∷ w.sent)
  submit-submit w b a ref got is named known paid =
      let w1 : World R = record w { sent = (b, a) ∷ w.sent } in
      rw
        (
          submit-stored w b a ref got is named known paid,
          submit-stored w1 b a ref got is named known paid,
        )
        (refl, refl, refl, refl)
