-- ===== src/Unbooked.antt =====
-- The watch on unbooked invoices: internal/domain/unbooked_watch.go, and the store of
-- internal/adapter/postgres/unbooked_store.go, for one tenant. What the database and the channel for
-- alerts fail with is an argument of a run. The text of an alert is not modelled: an alert is the list
-- of the invoices that its text names. Invoice numbers are those that the int32 of the table holds.
pub mod Watch
pub mod Store
pub mod Mirror
pub mod Silence
mod Tests
use cobalt_dingo.Prelude.{
  ℕ, Bool, true, false, not, ◌&&◌, ◌||◌, List, [], ◌∷◌, ◌==◌, if◌then◌else◌, ltb, select,
}

pub data UnbookedKind : Type 0 where
  payable receivable : UnbookedKind

pub record UnbookedRef : Type 0 where
  pub kind : UnbookedKind
  pub invoice_number : ℕ

pub record UnbookedChange : Type 0 where
  pub appeared : List UnbookedRef
  pub resolved : List UnbookedRef

abbrev pub same_kind : UnbookedKind → UnbookedKind → Bool
same_kind payable payable = true
same_kind receivable receivable = true
same_kind a b = false

-- `<` on the texts "payable" and "receivable"
abbrev pub kind_before : UnbookedKind → UnbookedKind → Bool
kind_before payable receivable = true
kind_before a b = false

-- `==` on the struct
abbrev pub same_ref : UnbookedRef → UnbookedRef → Bool
same_ref a b = same_kind a.kind b.kind && a.invoice_number == b.invoice_number

-- The comparison of `sortRefs`
abbrev pub ref_before : UnbookedRef → UnbookedRef → Bool
ref_before a b =
    if same_kind a.kind b.kind
    then ltb a.invoice_number b.invoice_number
    else kind_before a.kind b.kind

-- Whether a key is in the map that `index` makes of the list.
unfoldable pub known : UnbookedRef → List UnbookedRef → Bool
known r [] = false
known r (x ∷ xs) = same_ref r x || known r xs

-- The keys of `index`, each once.
unfoldable pub index : List UnbookedRef → List UnbookedRef
index [] = []
index (x ∷ xs) = if known x xs then index xs else x ∷ index xs

unfoldable pub insert_ref : UnbookedRef → List UnbookedRef → List UnbookedRef
insert_ref r [] = r ∷ []
insert_ref r (x ∷ xs) = if ref_before x r then x ∷ insert_ref r xs else r ∷ x ∷ xs

-- `sortRefs`, as an insertion sort: the keys are distinct and the order is total, so that every
-- sort gives this list.
unfoldable pub sort_refs : List UnbookedRef → List UnbookedRef
sort_refs [] = []
sort_refs (x ∷ xs) = insert_ref x (sort_refs xs)

-- `DetectUnbookedChange`
unfoldable pub detect_unbooked_change : List UnbookedRef → List UnbookedRef → UnbookedChange
detect_unbooked_change seen current = record {
  appeared = sort_refs (select (λ r. not (known r seen)) (index current));
  resolved = sort_refs (select (λ r. not (known r current)) (index seen));
}

-- `HasAlert`
abbrev pub has_alert : UnbookedChange → Bool
has_alert c = elim c.appeared [ [] ↦ false | r ∷ rs ↦ true ]
