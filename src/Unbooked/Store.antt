-- ===== src/Unbooked/Store.antt =====
-- `UnbookedStore` of internal/adapter/postgres/unbooked_store.go: the rows of one tenant in
-- `fortnox_unbooked_seen`. The primary key makes them a set, so that inserting a row that is there
-- does nothing. A transaction that fails leaves the rows as they were.
use cobalt_dingo.Prelude.{true, false, List, [], ◌∷◌, not, select}
use cobalt_dingo.Unbooked.{UnbookedRef, UnbookedChange, known, same_ref}

-- `RememberUnbooked`: ON CONFLICT DO NOTHING
unfoldable pub remember : UnbookedRef → List UnbookedRef → List UnbookedRef
remember r rows = elim (known r rows) [ true ↦ rows | false ↦ r ∷ rows ]

-- `ForgetUnbooked`
unfoldable pub forget : UnbookedRef → List UnbookedRef → List UnbookedRef
forget r = select (λ x. not (same_ref r x))

unfoldable pub remember_all : List UnbookedRef → List UnbookedRef → List UnbookedRef
remember_all [] rows = rows
remember_all (r ∷ rs) rows = remember_all rs (remember r rows)

unfoldable pub forget_all : List UnbookedRef → List UnbookedRef → List UnbookedRef
forget_all [] rows = rows
forget_all (r ∷ rs) rows = forget_all rs (forget r rows)

-- The statements of `Reconcile`, in their order.
unfoldable pub reconcile_rows : UnbookedChange → List UnbookedRef → List UnbookedRef
reconcile_rows c rows = forget_all c.resolved (remember_all c.appeared rows)
