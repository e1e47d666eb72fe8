-- ===== src/Invoices.antt =====
-- The queue of supplier invoices to pay: internal/domain/invoice.go. The lookup of a supplier's
-- account is a function of the source's caller, so it is a parameter.
pub mod Selected
mod Tests
use cobalt_dingo.Prelude.{
  ℕ, ◌≡◌, refl, Bool, true, not, List, [], ◌∷◌, ◌++◌, String, str_eq, select, if◌then◌else◌, Result,
  ok, err, ◌>>=◌, ◌∙◌, ap, Bool-cases, Result-cases, inl, inr,
}
use mathlib.Core.List.{append_assoc}
use cobalt_dingo.Ledger.{SupplierInvoice}

-- `IsForeignCurrency`
abbrev pub is_foreign_currency : SupplierInvoice → Bool
is_foreign_currency inv = not (str_eq inv.amount.currency "SEK")

pub record EnrichedInvoice : Type 0 where
  pub invoice : SupplierInvoice
  pub iban : String
  pub bic : String

-- A failed lookup, with the supplier that the error text names.
pub record LookupFailed : Type 0 where
  pub supplier : ℕ
  pub cause : String

-- The result of one lookup, as the loop of `Enrich` reads it.
abbrev pub looked_up : ℕ → Result String (String × String) → Result LookupFailed (String × String)
looked_up n (ok a) = ok a
looked_up n (err e) = err (record { supplier = n; cause = e })

-- `Enrich`, from `enriched` on
unfoldable pub enrich_from :
    (ℕ → Result String (String × String))
    → List SupplierInvoice
    → List EnrichedInvoice
    → Result LookupFailed (List EnrichedInvoice)
enrich_from lookup [] enriched = ok enriched
enrich_from lookup (inv ∷ invoices) enriched =
    looked_up inv.supplier_number (lookup inv.supplier_number) >>= λ (iban, bic).
    enrich_from lookup invoices (
      if str_eq iban ""
      then enriched
      else enriched ++ record { invoice = inv; iban = iban; bic = bic } ∷ [])

unfoldable pub enrich :
    (ℕ → Result String (String × String))
    → List SupplierInvoice
    → Result LookupFailed (List EnrichedInvoice)
enrich lookup invoices = enrich_from lookup invoices []

-- `Queue`
pub record Queue : Type 0 where
  pub items : List SupplierInvoice

-- `Enqueue`
unfoldable pub enqueue : SupplierInvoice → Queue → Queue
enqueue inv q = record { items = q.items ++ inv ∷ [] }

-- `All`
unfoldable pub all : Queue → List SupplierInvoice
all q = q.items

-- `Sync`
unfoldable pub sync : List SupplierInvoice → Queue → Queue
sync [] q = q
sync (inv ∷ source) q =
    if is_foreign_currency inv then sync source (enqueue inv q) else sync source q
