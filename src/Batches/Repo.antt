-- ===== src/Batches/Repo.antt =====
-- The repository of batches: internal/adapter/postgres/batch_repo.go, over the two tables of
-- migrations/001_initial.up.sql with the constraints that its INSERTs can meet. A transaction that
-- fails leaves the tables as they were. What else a database can fail with is not modelled.
-- Invoice numbers are those that the int32 of the table holds; the identifier of an item is left out.
use cobalt_dingo.Prelude.{
  ℕ, Bool, false, ◌&&◌, ◌||◌, Option, none, some, List, [], ◌∷◌, ◌++◌, map, String, str_eq, ◌==◌,
  if◌then◌else◌, select, Result, ok, err, ◌>>=◌,
}
use cobalt_dingo.Dates.{Instant, parse_date}
use cobalt_dingo.Money.{Money}
use cobalt_dingo.Batches.{BatchStatus, BatchItem, Batch}

-- A row of `payment_batches`.
pub record BatchRow : Type 0 where
  pub id : String
  pub tenant_id : String
  pub msg_id : String
  pub status : BatchStatus
  pub xml : List ℕ
  pub created_at : Instant
  pub submitted_at : Option Instant

-- A row of `batch_items`. The date is kept as the text that it parses from and prints to.
pub record ItemRow (R : Type 0) : Type 0 where
  pub batch_id : String
  pub fortnox_invoice_number : ℕ
  pub supplier_name : String
  pub supplier_iban : String
  pub supplier_bic : String
  pub amount : Money
  pub due_date : String
  pub execution_rate : Option R

pub record Tables (R : Type 0) : Type 0 where
  pub batches : List BatchRow
  pub items : List (ItemRow R)

pub data RepoError : Type 0 where
  duplicate_id duplicate_msg_id duplicate_item bad_due_date not_found : RepoError

unfoldable pub has_id : String → List BatchRow → Bool
has_id id [] = false
has_id id (r ∷ rows) = str_eq id r.id || has_id id rows

unfoldable pub has_msg : String → String → List BatchRow → Bool
has_msg tenant msg [] = false
has_msg tenant msg (r ∷ rows) =
    (str_eq tenant r.tenant_id && str_eq msg r.msg_id) || has_msg tenant msg rows

-- `GetBatch`: the row of this tenant and id.
unfoldable pub find_row : String → String → List BatchRow → Option BatchRow
find_row tenant id [] = none
find_row tenant id (r ∷ rows) =
    if str_eq tenant r.tenant_id && str_eq id r.id then some r else find_row tenant id rows

module _ {R : Type 0} where
  unfoldable pub has_item : String → ℕ → List (ItemRow R) → Bool
  has_item id n [] = false
  has_item id n (r ∷ rows) =
      (str_eq id r.batch_id && n == r.fortnox_invoice_number) || has_item id n rows

  -- `InsertBatch`: an INSERT with no ON CONFLICT, under the primary key and the unique message.
  unfoldable pub insert_batch : BatchRow → Tables R → Result RepoError (Tables R)
  insert_batch r t =
      if has_id r.id t.batches
      then err duplicate_id
      else if has_msg r.tenant_id r.msg_id t.batches
      then err duplicate_msg_id
      else ok (record t { batches = t.batches ++ r ∷ [] })

  abbrev pub item_row : String → BatchItem R → ItemRow R
  item_row id i = record {
    batch_id = id;
    fortnox_invoice_number = i.fortnox_invoice_number;
    supplier_name = i.supplier_name;
    supplier_iban = i.supplier_iban;
    supplier_bic = i.supplier_bic;
    amount = i.amount;
    due_date = i.due_date;
    execution_rate = none;
  }

  -- The date check and `InsertBatchItem`, which has no column for the execution rate.
  unfoldable pub insert_item : String → BatchItem R → Tables R → Result RepoError (Tables R)
  insert_item id i t = elim (parse_date i.due_date) [
    | none ↦ err bad_due_date
    | some due ↦
        if has_item id i.fortnox_invoice_number t.items
        then err duplicate_item
        else ok (record t { items = t.items ++ item_row id i ∷ [] })
  ]

  unfoldable pub insert_items : String → List (BatchItem R) → Tables R → Result RepoError (Tables R)
  insert_items id [] t = ok t
  insert_items id (i ∷ items) t = insert_item id i t >>= insert_items id items

  -- The statements of the transaction. `new_id` is what `newUUID` gives, `at_time` the NOW() of
  -- the database.
  unfoldable pub transaction : String → Instant → Batch R → Tables R → Result RepoError (Tables R)
  transaction new_id at_time b t =
      let id = if str_eq b.id "" then new_id else b.id in
      insert_batch
        (record {
          id = id;
          tenant_id = b.tenant_id;
          msg_id = b.msg_id;
          status = b.status;
          xml = b.xml;
          created_at = at_time;
          submitted_at = none;
        })
        t
      >>= insert_items id b.items

  abbrev pub commit :
      Result RepoError (Tables R) → Tables R → Result RepoError (Unit {0}) × Tables R
  commit (ok t') t = (ok tt, t')
  commit (err e) t = (err e, t)

  -- `Save`
  unfoldable pub save :
      String → Instant → Batch R → Tables R → Result RepoError (Unit {0}) × Tables R
  save new_id at_time b t = commit (transaction new_id at_time b t) t

  -- `toDomainBatchItem`
  abbrev pub to_item : ItemRow R → BatchItem R
  to_item r = record {
    batch_id = r.batch_id;
    fortnox_invoice_number = r.fortnox_invoice_number;
    supplier_name = r.supplier_name;
    supplier_iban = r.supplier_iban;
    supplier_bic = r.supplier_bic;
    amount = r.amount;
    due_date = r.due_date;
    execution_rate = r.execution_rate;
  }

  -- `toDomainBatch`
  abbrev pub to_batch : BatchRow → List (ItemRow R) → Batch R
  to_batch r items = record {
    id = r.id;
    tenant_id = r.tenant_id;
    msg_id = r.msg_id;
    status = r.status;
    xml = r.xml;
    items = map to_item items;
    created_at = r.created_at;
    submitted_at = r.submitted_at;
  }

  abbrev pub items_of : String → List (ItemRow R) → List (ItemRow R)
  items_of id = select (λ r. str_eq id r.batch_id)

  -- `Get`
  unfoldable pub get : String → String → Tables R → Result RepoError (Batch R)
  get tenant id t = elim (find_row tenant id t.batches) [
    | none ↦ err not_found
    | some r ↦ ok (to_batch r (items_of id t.items))
  ]
