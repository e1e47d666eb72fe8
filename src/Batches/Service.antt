-- ===== src/Batches/Service.antt =====
-- `BatchService`: `SaveDraft`, `Submit` and `ConfirmExecution`.
use cobalt_dingo.Prelude.{
  ℕ, Bool, true, false, Option, none, some, List, [], ◌∷◌, ◌++◌, String, ◌==◌, if◌then◌else◌,
  Result, ok, err,
}
use cobalt_dingo.Prelude.Actions.{Action, pure, raise, attempt, and_then}
use cobalt_dingo.Batches.{
  BatchStatus, draft, submitted, confirmed, BatchItem, Batch, Confirmation, Ports,
}

-- The errors of the service, each with the text of what it wraps.
pub data BatchError : Type 0 where
  save_draft_failed : String → BatchError
  get_failed : String → BatchError
  wrong_status : BatchStatus → BatchStatus → BatchError
  no_account : String → BatchError
  pay_failed : String → BatchError
  not_in_batch : ℕ → BatchError
  write_back_failed : ℕ → String → BatchError
  save_failed : String → BatchError

abbrev pub is_draft : BatchStatus → Bool
is_draft draft = true
is_draft other = false

abbrev pub is_submitted : BatchStatus → Bool
is_submitted submitted = true
is_submitted other = false

module _ {R W : Type 0} (ports : Ports R W) where
  open ports use {save, get, default_debtor_account, pay, erp, now}

  -- `SaveDraft`
  unfoldable pub save_draft :
      String → String → List (BatchItem R) → List ℕ → Action W BatchError (Batch R)
  save_draft tenant msg items xml w =
      let (at_time, w1) = now w in
      let b : Batch R = record {
        id = "";
        tenant_id = tenant;
        msg_id = msg;
        status = draft;
        xml = xml;
        items = items;
        created_at = at_time;
        submitted_at = none;
      } in
      and_then (attempt (save b))
        (λ saved. elim saved [ ok _ ↦ pure b | err e ↦ raise (save_draft_failed e) ]) w1

  -- The end of `Submit`, after the bank has taken the payment: the result of the save is dropped.
  unfoldable pub mark_submitted : Batch R → String → Action W BatchError String
  mark_submitted b ref w =
      let (at_time, w1) = now w in
      let marked : Batch R = record b { status = submitted; submitted_at = some at_time } in
      and_then (attempt (save marked)) (λ _. pure ref) w1

  -- `Submit`, for the batch that was read.
  unfoldable pub submit_batch : String → Batch R → Action W BatchError String
  submit_batch tenant b w =
      let sent =
        and_then (attempt (default_debtor_account tenant))
          (λ a. elim a [
            | err e ↦ raise (no_account e)
            | ok account ↦
                and_then (attempt (pay b account))
                  (λ r. elim r [ err e ↦ raise (pay_failed e) | ok ref ↦ mark_submitted b ref ])
          ])
          w in
      if is_draft b.status then sent else (err (wrong_status b.status draft), w)

  -- `Submit`
  unfoldable pub submit : String → String → Action W BatchError String
  submit tenant id =
      and_then (attempt (get tenant id))
        (λ r. elim r [ err e ↦ raise (get_failed e) | ok b ↦ submit_batch tenant b ])

  -- `itemByInvoice[n]`: a later item with the same number replaces an earlier one.
  unfoldable pub item_by_invoice : ℕ → List (BatchItem R) → Option (BatchItem R)
  item_by_invoice n [] = none
  item_by_invoice n (i ∷ items) = elim (item_by_invoice n items) [
    | some j ↦ some j
    | none ↦ if n == i.fortnox_invoice_number then some i else none
  ]

  -- One round of the loop: the errors that it adds, and the world after it.
  unfoldable pub write_back :
      String → Confirmation R → Option (BatchItem R) → W → List BatchError × W
  write_back tenant c none w = (not_in_batch c.fortnox_invoice_number ∷ [], w)
  write_back tenant c (some item) w = elim erp [
    | none ↦ ([], w)
    | some record_and_bookkeep ↦
        let (r, w') =
          record_and_bookkeep tenant (record item { execution_rate = some c.execution_rate })
            c.execution_rate c.payment_date w in
        elim r [ ok _ ↦ ([], w') | err e ↦ (write_back_failed c.fortnox_invoice_number e ∷ [], w') ]
  ]

  -- The loop over the confirmations, with the errors of all rounds.
  unfoldable pub write_back_all :
      String → List (BatchItem R) → List (Confirmation R) → W → List BatchError × W
  write_back_all tenant items [] w = ([], w)
  write_back_all tenant items (c ∷ cs) w =
      let (e, w1) = write_back tenant c (item_by_invoice c.fortnox_invoice_number items) w in
      let (es, w2) = write_back_all tenant items cs w1 in (e ++ es, w2)

  abbrev pub joined : List BatchError → Result (List BatchError) (Unit {0})
  joined [] = ok tt
  joined (e ∷ es) = err (e ∷ es)

  -- The end of `ConfirmExecution`, with the errors so far.
  unfoldable pub mark_confirmed : Batch R → List BatchError → Action W (List BatchError) (Unit {0})
  mark_confirmed b errors w =
      let (r, w') = save (record b { status = confirmed }) w in
      elim r [ ok _ ↦ (joined errors, w') | err e ↦ (joined (errors ++ save_failed e ∷ []), w') ]

  unfoldable pub confirm_batch :
      String → Batch R → List (Confirmation R) → Action W (List BatchError) (Unit {0})
  confirm_batch tenant b cs w =
      let (errors, w') = write_back_all tenant b.items cs w in
      let done = mark_confirmed b errors w' in
      if is_submitted b.status then done else (err (wrong_status b.status submitted ∷ []), w)

  -- `ConfirmExecution`
  unfoldable pub confirm_execution :
      String → String → List (Confirmation R) → Action W (List BatchError) (Unit {0})
  confirm_execution tenant id cs =
      and_then (attempt (get tenant id))
        (λ r. elim r [ err e ↦ raise (get_failed e ∷ []) | ok b ↦ confirm_batch tenant b cs ])
