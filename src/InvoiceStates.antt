-- ===== src/InvoiceStates.antt =====
-- The verdict on open obligations: internal/domain/invoice_states.go. The reason of a verdict is a
-- text that lists findings: the findings are modelled, their wording is not. Where both ledgers
-- lack the filter `unbooked`, the source names either of them, as its map iterates; here it is the
-- supplier ledger.
mod Tests
use cobalt_dingo.Prelude.{
  ℕ, suc, ◌≡◌, refl, ap, Bool, true, false, ◌&&◌, ◌||◌, Option, none, some, List, [], ◌∷◌, ◌++◌,
  String, str_eq, ◌==◌, if◌then◌else◌, arith, Bool-cases, Option-cases, inl, inr, All,
}

pub record InvoiceStateCount : Type 0 where
  pub filter : String
  pub count : ℕ

pub record InvoiceStates : Type 0 where
  pub supplier : List InvoiceStateCount
  pub customer : List InvoiceStateCount

pub data ObligationsVerdict : Type 0 where
  settled open_items hidden unknown : ObligationsVerdict

-- An entry of the lists `open` and `hidden`.
pub record Finding : Type 0 where
  pub amount : ℕ
  pub label : String
  pub status : String

pub data Evidence : Type 0 where
  not_measured : Evidence
  no_unbooked_filter : String → Evidence
  found : List Finding → List Finding → Evidence

abbrev pub obligation_filters : List String
obligation_filters = "unpaid" ∷ "unbooked" ∷ "pendingpayment" ∷ "authorizepending" ∷ []

-- `find`
unfoldable pub find : List InvoiceStateCount → String → Option ℕ
find [] filter = none
find (c ∷ counts) filter = if str_eq c.filter filter then some c.count else find counts filter

abbrev pub is_unmeasured : List InvoiceStateCount → Bool
is_unmeasured [] = true
is_unmeasured (c ∷ counts) = false

-- One round of the loop over the filters, for the filters of `hidden` or those of `open`: whether
-- it adds an entry.
abbrev pub entry : String → String → Option ℕ → List Finding
entry label f none = []
entry label f (some n) =
    if n == 0 then [] else record { amount = n; label = label; status = f } ∷ []

-- The entries of one ledger for some of the filters, in their order.
unfoldable pub entries : String → List InvoiceStateCount → List String → List Finding
entries label counts [] = []
entries label counts (f ∷ filters) = entry label f (find counts f) ++ entries label counts filters

abbrev pub is_hidden_filter : String → Bool
is_hidden_filter f = str_eq f "unbooked"

abbrev pub filters_where : Bool → List String → List String
filters_where b [] = []
filters_where true (f ∷ filters) =
    if is_hidden_filter f then f ∷ filters_where true filters else filters_where true filters
filters_where false (f ∷ filters) =
    if is_hidden_filter f then filters_where false filters else f ∷ filters_where false filters

abbrev pub findings : Bool → InvoiceStates → List Finding
findings b s =
    entries "supplier" s.supplier (filters_where b obligation_filters)
    ++ entries "customer" s.customer (filters_where b obligation_filters)

-- The `switch` at the end.
unfoldable pub conclude : List Finding → List Finding → ObligationsVerdict
conclude [] [] = settled
conclude [] (h ∷ hs) = hidden
conclude (o ∷ os) hs = open_items

-- The test of the first loop, for one ledger.
abbrev pub lacks_unbooked : List InvoiceStateCount → Bool
lacks_unbooked [] = false
lacks_unbooked (c ∷ counts) = elim (find (c ∷ counts) "unbooked") [ none ↦ true | some n ↦ false ]

-- `Assess`
unfoldable pub assess : InvoiceStates → ObligationsVerdict × Evidence
assess s =
    if is_unmeasured s.supplier && is_unmeasured s.customer
    then (unknown, not_measured)
    else if lacks_unbooked s.supplier
    then (unknown, no_unbooked_filter "supplier")
    else if lacks_unbooked s.customer
    then (unknown, no_unbooked_filter "customer")
    else (conclude (findings false s) (findings true s), found (findings false s) (findings true s))

-- The entry is absent or zero.
abbrev pub IsClear : Option ℕ → Type 0
IsClear none = Unit
IsClear (some n) = n ≡ 0

IsClear-entry : (label f : String) (o : Option ℕ) → entry label f o ≡ [] → IsClear o
IsClear-entry label f none e = tt
IsClear-entry label f (some n) e = elim (Bool-cases (n == 0)) [
  | inl t ↦ ground arith
  | inr t ↦ let bad = rw t at e in cc
]

append-empty : (xs ys : List Finding) → xs ++ ys ≡ [] → (xs ≡ []) × (ys ≡ [])
append-empty [] ys e = (refl, e)
append-empty (x ∷ xs) ys e = cc

entries-IsClear :
    (label : String) (counts : List InvoiceStateCount) (filters : List String)
    → entries label counts filters ≡ []
    → All (λ f. IsClear (find counts f)) filters
unfolding entries
entries-IsClear label counts [] e = tt
entries-IsClear label counts (f ∷ filters) e =
    let (first, rest) =
      append-empty (entry label f (find counts f)) (entries label counts filters) e in
    (IsClear-entry label f (find counts f) first, entries-IsClear label counts filters rest)

conclude-settled : (os hs : List Finding) → conclude os hs ≡ settled → (os ≡ []) × (hs ≡ [])
unfolding conclude
conclude-settled [] [] e = (refl, refl)
conclude-settled [] (h ∷ hs) e = cc
conclude-settled (o ∷ os) hs e = cc

-- Both ledgers have nothing under the status.
abbrev pub IsClearIn : InvoiceStates → String → Type 0
IsClearIn s f = IsClear (find s.supplier f) × IsClear (find s.customer f)

-- The verdict "none" rests on a complete measurement. When `Assess` gives it, one ledger at least
-- was counted, no counted ledger lacks the filter `unbooked`, and for each of the four statuses
-- that mean an obligation, each ledger has no count or a count of zero.
assess-settled :
    (s : InvoiceStates)
    → (assess s).0 ≡ settled
    → ((is_unmeasured s.supplier && is_unmeasured s.customer) ≡ false)
      × (lacks_unbooked s.supplier ≡ false)
      × (lacks_unbooked s.customer ≡ false)
      × All (IsClearIn s) obligation_filters
unfolding assess
assess-settled s e = elim (Bool-cases (is_unmeasured s.supplier && is_unmeasured s.customer)) [
  | inl t ↦ let bad = rw t at e in cc
  | inr measured ↦ elim (Bool-cases (lacks_unbooked s.supplier)) [
    | inl t ↦ let bad = rw (measured, t) at e in cc
    | inr first ↦ elim (Bool-cases (lacks_unbooked s.customer)) [
      | inl t ↦ let bad = rw (measured, first, t) at e in cc
      | inr second ↦
          let (os, hs) =
            conclude-settled (findings false s) (findings true s)
              (rw (measured, first, second) at e) in
          let (os1, os2) =
            append-empty (entries "supplier" s.supplier (filters_where false obligation_filters)) _
              os in
          let (hs1, hs2) =
            append-empty (entries "supplier" s.supplier (filters_where true obligation_filters)) _
              hs in
          let a = entries-IsClear "supplier" s.supplier _ os1 in
          let b = entries-IsClear "customer" s.customer _ os2 in
          let c = entries-IsClear "supplier" s.supplier _ hs1 in
          let d = entries-IsClear "customer" s.customer _ hs2 in
          (
            measured,
            first,
            second,
            ((a.0, b.0), ((c.0, d.0), ((a.1.0, b.1.0), ((a.1.1.0, b.1.1.0), tt)))),
          )
    ]
  ]
]
