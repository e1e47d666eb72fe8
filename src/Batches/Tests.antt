-- ===== src/Batches/Tests.antt =====
-- One batch, over tables that hold it and over a world that only counts.
use cobalt_dingo.Prelude.{
  ℕ, suc, ◌≡◌, ◌≢◌, refl, true, none, List, [], ◌∷◌, String, str_eq, str_eq_iff, Result, ok,
}
use cobalt_dingo.Prelude.Int.{pos}
use cobalt_dingo.Batches.{BatchStatus, draft, Batch, DebtorAccount, Confirmation, Ports}
use cobalt_dingo.Batches.Service.{submit, submit_batch, mark_submitted}
use cobalt_dingo.Batches.Repo
use cobalt_dingo.Batches.Repo.{BatchRow, Tables, RepoError, find_row}
use cobalt_dingo.Batches.Lifecycle.{submit-paid}
use cobalt_dingo.Batches.Resubmit.{World, repo_ports, submit-submit}

abbrev account : DebtorAccount
account = record {
  tenant_id = "t";
  name = "n";
  iban = "SE1";
  bic = "B";
  pisp_handle = "h";
  is_default = true;
}

abbrev batch : BatchStatus → Batch ℕ
batch status = record {
  id = "b1";
  tenant_id = "t";
  msg_id = "m";
  status = status;
  xml = [];
  items = [];
  created_at = pos 1;
  submitted_at = none;
}

abbrev row : BatchRow
row = record {
  id = "b1";
  tenant_id = "t";
  msg_id = "m";
  status = draft;
  xml = [];
  created_at = pos 1;
  submitted_at = none;
}

abbrev world : World ℕ
world = record { tables = record { batches = row ∷ []; items = [] }; sent = [] }

abbrev text : RepoError → String
text e = "repository"

abbrev account_of : String → Result String DebtorAccount
account_of tenant = ok account

abbrev bank : Batch ℕ → DebtorAccount → Result String String
bank b a = ok "ref"

stored : Repo.get "t" "b1" world.tables ≡ ok (batch draft)
unfolding Repo.get find_row
stored = refl

has_name : ◌≢◌ {A = String} "b1" ""
has_name e = let t : str_eq "b1" "" ≡ true = (str_eq_iff "b1" "").1 e in cc

submit-submit_example :
    let ports = repo_ports text "b2" (pos 9) account_of bank in
    let (first, w1) = submit ports "t" "b1" world in
    let (second, w2) = submit ports "t" "b1" w1 in
    (first ≡ ok "ref")
    × (second ≡ ok "ref")
    × (w2.tables ≡ world.tables)
    × (w2.sent ≡ (batch draft, account) ∷ (batch draft, account) ∷ [])
submit-submit_example =
    submit-submit text "b2" (pos 9) account_of bank "t" "b1" world (batch draft) account "ref"
      stored refl has_name refl refl

-- The world is the number of calls so far.
abbrev counting : BatchStatus → Ports ℕ ℕ
counting status = record {
  save = λ b w. (ok tt, suc w);
  get = λ t i w. (ok (batch status), suc w);
  default_debtor_account = λ t w. (ok account, suc w);
  pay = λ b a w. (ok "ref", suc w);
  erp = none;
  now = λ w. (pos 9, suc w);
}

abbrev confirmations : List (Confirmation ℕ)
confirmations =
    record { fortnox_invoice_number = 7; execution_rate = 11; payment_date = "2026-01-02" } ∷ []

paid : submit (counting draft) "t" "b1" 0 ≡ (ok "ref", 5)
unfolding submit submit_batch mark_submitted
paid = refl

submit-paid_example :
    let ports = counting draft in
    (b : Batch ℕ) × (a : DebtorAccount) × (w1 : ℕ) × (w2 : ℕ) × (w3 : ℕ) × (ports.get "t" "b1" 0
      ≡ (ok b, w1))
    × (b.status ≡ draft)
    × (ports.default_debtor_account "t" w1 ≡ (ok a, w2))
    × (ports.pay b a w2 ≡ (ok "ref", w3))
    × (mark_submitted ports b "ref" w3 ≡ (ok "ref", 5))
submit-paid_example = submit-paid (counting draft) "t" "b1" 0 5 "ref" paid
