-- ===== src/Batches.antt =====
-- Payment batches: internal/domain/batch.go and batch_service.go. The exchange rate of an
-- executed payment is a float64 of the source; here it is any type `R`, since the service only
-- passes rates on.
--
-- The repository, the debtor accounts, the bank (PISP) and the ERP are interfaces of the source.
-- They are one record of actions on a world that nothing is known of.
pub mod Service
pub mod Repo
pub mod Lifecycle
pub mod Resubmit
mod Tests
use cobalt_dingo.Prelude.{ℕ, Bool, List, Option, String}
use cobalt_dingo.Prelude.Actions.{Action}
use cobalt_dingo.Dates.{Instant}
use cobalt_dingo.Money.{Money}

pub data BatchStatus : Type 0 where
  draft submitted confirmed reconciled : BatchStatus

pub record BatchItem (R : Type 0) : Type 0 where
  pub batch_id : String
  pub fortnox_invoice_number : ℕ
  pub supplier_name : String
  pub supplier_iban : String
  pub supplier_bic : String
  pub amount : Money
  pub due_date : String
  pub execution_rate : Option R

pub record Batch (R : Type 0) : Type 0 where
  pub id : String
  pub tenant_id : String
  pub msg_id : String
  pub status : BatchStatus
  pub xml : List ℕ
  pub items : List (BatchItem R)
  pub created_at : Instant
  pub submitted_at : Option Instant

-- `DebtorAccount` of internal/domain/tenant.go
pub record DebtorAccount : Type 0 where
  pub tenant_id : String
  pub name : String
  pub iban : String
  pub bic : String
  pub pisp_handle : String
  pub is_default : Bool

-- `ExecutionConfirmation`
pub record Confirmation (R : Type 0) : Type 0 where
  pub fortnox_invoice_number : ℕ
  pub execution_rate : R
  pub payment_date : String

-- What `NewBatchService` is given. `erp` is `none` where the source has a nil `ERPWriter`.
pub record Ports (R W : Type 0) : Type 0 where
  pub save : Batch R → Action W String (Unit {0})
  pub get : String → String → Action W String (Batch R)
  pub default_debtor_account : String → Action W String DebtorAccount
  pub pay : Batch R → DebtorAccount → Action W String String
  pub erp : Option (String → BatchItem R → R → String → Action W String (Unit {0}))
  pub now : W → Instant × W
