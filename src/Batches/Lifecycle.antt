-- ===== src/Batches/Lifecycle.antt =====
-- What `Submit` and `ConfirmExecution` do with a batch that was read, for any repository, bank
-- and ERP.
use cobalt_dingo.Prelude.{
  ◌≡◌, ◌≢◌, refl, ap, subst, ok-injective, true, false, List, [], ◌∷◌, String, Result, ok, err,
  Result-cases, Bool-cases, inl, inr,
}
use cobalt_dingo.Prelude.Actions.{Action, and_then, attempt, raise, and_then-ok}
use cobalt_dingo.Batches.{
  BatchStatus, draft, submitted, confirmed, reconciled, Batch, DebtorAccount, Confirmation, Ports,
}
use cobalt_dingo.Batches.Service.{
  BatchError, wrong_status, get_failed, no_account, pay_failed, submit, submit_batch,
  mark_submitted, write_back_all, mark_confirmed, confirm_batch, confirm_execution, is_draft,
  is_submitted,
}

not_draft : (s : BatchStatus) → s ≢ draft → is_draft s ≡ false
not_draft draft n = absurd (n refl)
not_draft submitted n = refl
not_draft confirmed n = refl
not_draft reconciled n = refl

draft_is : (s : BatchStatus) → is_draft s ≡ true → s ≡ draft
draft_is draft e = refl
draft_is submitted e = cc
draft_is confirmed e = cc
draft_is reconciled e = cc

not_submitted : (s : BatchStatus) → s ≢ submitted → is_submitted s ≡ false
not_submitted submitted n = absurd (n refl)
not_submitted draft n = refl
not_submitted confirmed n = refl
not_submitted reconciled n = refl

module _ {R W : Type 0} (ports : Ports R W) (tenant id : String) where
  open ports use {save, get, default_debtor_account, pay, erp, now}

  -- A batch that is not a draft is refused: the world is the one that reading it left, so that
  -- neither the account, the bank nor the repository has been asked for anything.
  submit-not_draft :
      (w w1 : W) (b : Batch R)
      → get tenant id w ≡ (ok b, w1)
      → b.status ≢ draft
      → submit ports tenant id w ≡ (err (wrong_status b.status draft), w1)
  unfolding submit submit_batch
  submit-not_draft w w1 b got other = let e = not_draft b.status other in simp (got, e)

  -- A batch that is not submitted is refused for confirmation, and nothing but the reading of it
  -- has happened: no supplier payment is booked in the ERP.
  confirm-not_submitted :
      (w w1 : W) (b : Batch R) (cs : List (Confirmation R))
      → get tenant id w ≡ (ok b, w1)
      → b.status ≢ submitted
      → confirm_execution ports tenant id cs w ≡ (err (wrong_status b.status submitted ∷ []), w1)
  unfolding confirm_execution confirm_batch
  confirm-not_submitted w w1 b cs got other = let e = not_submitted b.status other in simp (got, e)

  -- The last save decides the world, whether it succeeds or not.
  mark_confirmed-world :
      (b : Batch R) (errors : List BatchError) (w : W)
      → (mark_confirmed ports b errors w).1 ≡ (save (record b { status = confirmed }) w).1
  unfolding mark_confirmed
  mark_confirmed-world b errors w =
      elim (Result-cases (save (record b { status = confirmed }) w).0) [
        | inl (x, q) ↦ rw (q, mark_confirmed) refl
        | inr (x, q) ↦ rw (q, mark_confirmed) refl
      ]

  -- The batch is saved with the items that were read, whatever the confirmations and whatever the
  -- ERP answered: the rates of the confirmations do not reach the repository. The world is the one
  -- that this save leaves, after the loop over the confirmations.
  confirm-keeps_items :
      (w w1 : W) (b : Batch R) (cs : List (Confirmation R))
      → get tenant id w ≡ (ok b, w1)
      → b.status ≡ submitted
      → let (errors, w2) = write_back_all ports tenant b.items cs w1 in
        (confirm_execution ports tenant id cs w).1 ≡ (save (record b { status = confirmed }) w2).1
  unfolding confirm_execution confirm_batch mark_confirmed
  confirm-keeps_items w w1 b cs got is =
      let (errors, w2) = write_back_all ports tenant b.items cs w1 in
      let e : is_submitted b.status ≡ true = ap is_submitted is in
      rw (got, e) (mark_confirmed-world b errors w2)

  abbrev pay_from : Batch R → DebtorAccount → Action W BatchError String
  pay_from b a =
      and_then (attempt (pay b a))
        (λ r. elim r [ err e ↦ raise (pay_failed e) | ok ref ↦ mark_submitted ports b ref ])

  -- A submission that succeeds has paid the batch that was read, a draft, from the default account
  -- of the tenant, and answers with the reference that the bank gave; only the clock and the save
  -- come after the payment.
  pub submit-paid :
      (w w' : W) (ref : String)
      → submit ports tenant id w ≡ (ok ref, w')
      → (b : Batch R) × (a : DebtorAccount) × (w1 : W) × (w2 : W) × (w3 : W) × (get tenant id w
          ≡ (ok b, w1))
        × (b.status ≡ draft)
        × (default_debtor_account tenant w1 ≡ (ok a, w2))
        × (pay b a w2 ≡ (ok ref, w3))
        × (mark_submitted ports b ref w3 ≡ (ok ref, w'))
  unfolding submit submit_batch mark_submitted
  submit-paid w w' ref e =
      let (b, w1, got, next) =
        and_then-ok (get tenant id) get_failed (submit_batch ports tenant) w w' ref e in
      elim (Bool-cases (is_draft b.status)) [
        | inl d ↦
            let (a, w2, found, next2) =
              and_then-ok (default_debtor_account tenant) no_account (pay_from b) w1 w' ref
                (rw d at next) in
            let (r, w3, paid, end) =
              and_then-ok (pay b a) pay_failed (mark_submitted ports b) w2 w' ref next2 in
            let same : r ≡ ref =
              ok-injective r ref (ap (λ (x : Result BatchError String × W). x.0) end) in
            (
              b,
              a,
              w1,
              w2,
              w3,
              got,
              draft_is b.status d,
              found,
              subst (λ x. pay b a w2 ≡ (ok x, w3)) same paid,
              subst (λ x. mark_submitted ports b x w3 ≡ (ok ref, w')) same end,
            )
        | inr n ↦ let bad = rw n at next in cc
      ]
