-- ===== src/Invoices/Selected.antt =====
-- Which invoices `Sync` queues and which `Enrich` keeps.
use mathlib.Core.List.{append-nil, append_assoc}
use cobalt_dingo.Prelude.{
  ℕ, ◌≡◌, sym, ◌∙◌, List, [], ◌∷◌, ◌++◌, String, str_eq, select, if◌then◌else◌, Result, ok, err,
  ok-injective, Bool-cases, Result-cases, inl, inr,
}
use cobalt_dingo.Ledger.{SupplierInvoice}
use cobalt_dingo.Invoices.{
  is_foreign_currency, EnrichedInvoice, enrich_from, enrich, Queue, enqueue, all, sync,
}

-- `Sync` appends the foreign-currency invoices of the source to the queue, all of them, once each
-- and in order, and keeps what was queued.
sync-all :
    (source : List SupplierInvoice) (q : Queue)
    → all (sync source q) ≡ all q ++ select is_foreign_currency source
unfolding all sync enqueue
sync-all [] q = sym (append-nil q.items)
sync-all (inv ∷ source) q = elim (Bool-cases (is_foreign_currency inv)) [
  | inl e ↦ rw e (
      sync-all source (enqueue inv q)
      ∙ append_assoc q.items (inv ∷ []) (select is_foreign_currency source))
  | inr e ↦ rw e (sync-all source q)
]

-- What one invoice adds: nothing where the lookup fails or gives an empty IBAN.
abbrev pub kept : SupplierInvoice → Result String (String × String) → List EnrichedInvoice
kept inv (ok (iban, bic)) =
    if str_eq iban "" then [] else record { invoice = inv; iban = iban; bic = bic } ∷ []
kept inv (err e) = []

abbrev pub kept_all :
    (ℕ → Result String (String × String)) → List SupplierInvoice → List EnrichedInvoice
kept_all lookup [] = []
kept_all lookup (inv ∷ invoices) = kept inv (lookup inv.supplier_number) ++ kept_all lookup invoices

enrich_from-kept :
    (lookup : ℕ → Result String (String × String)) (invoices : List SupplierInvoice)
    (enriched l : List EnrichedInvoice)
    → enrich_from lookup invoices enriched ≡ ok l
    → l ≡ enriched ++ kept_all lookup invoices
unfolding enrich_from
enrich_from-kept lookup [] enriched l e =
    sym (ok-injective enriched l e) ∙ sym (append-nil enriched)
enrich_from-kept lookup (inv ∷ invoices) enriched l e =
    elim (Result-cases (lookup inv.supplier_number)) [
      | inl (x, q) ↦ let bad = rw q at e in cc
      | inr ((iban, bic), q) ↦
          let next = rw q at e in
          elim (Bool-cases (str_eq iban "")) [
            | inl t ↦ rw (q, t) (enrich_from-kept lookup invoices enriched l (rw t at next))
            | inr f ↦
                let entry : EnrichedInvoice = record { invoice = inv; iban = iban; bic = bic } in
                rw (q, f)
                  (enrich_from-kept lookup invoices (enriched ++ entry ∷ []) l (rw f at next)
                    ∙ append_assoc enriched (entry ∷ []) (kept_all lookup invoices))
          ]
    ]

-- When `Enrich` succeeds, its result holds each invoice whose supplier has a non-empty IBAN, in
-- order and with that IBAN and BIC, and no other invoice.
enrich-kept :
    (lookup : ℕ → Result String (String × String)) (invoices : List SupplierInvoice)
    (l : List EnrichedInvoice)
    → enrich lookup invoices ≡ ok l
    → l ≡ kept_all lookup invoices
unfolding enrich
enrich-kept lookup invoices l e = enrich_from-kept lookup invoices [] l e
