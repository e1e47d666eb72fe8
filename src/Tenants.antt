-- ===== src/Tenants.antt =====
-- The registry of tenants: internal/adapter/postgres/tenant_repo.go and the queries on `tenants` in
-- internal/adapter/postgres/queries/tenants.sql. `LIKE` is a parameter: it is Postgres'.
pub mod Prefix
pub mod Tests
use cobalt_dingo.Prelude.{
  ℕ, ◌≡◌, String, Bool, true, false, not, ◌&&◌, ◌||◌, Option, none, some, List, [], ◌∷◌, ◌++◌,
  select, ◌==◌, if◌then◌else◌, Result, ok, err,
}
use cobalt_dingo.Prelude.Text.{Text, same_text, is_empty_text}

pub record Tenant : Type 0 where
  pub id : Text
  pub name : String

-- `strings.ReplaceAll` of one code point.
unfoldable pub replace_all : ℕ → Text → Text → Text
replace_all old new [] = []
replace_all old new (c ∷ cs) =
    let rest = replace_all old new cs in if c == old then new ++ rest else c ∷ rest

-- `escapeLike`
unfoldable pub escape_like : Text → Text
escape_like s =
    replace_all b'_' (b'\\' ∷ b'_' ∷ [])
      (replace_all b'%' (b'\\' ∷ b'%' ∷ []) (replace_all b'\\' (b'\\' ∷ b'\\' ∷ []) s))

abbrev pub is_meta : ℕ → Bool
is_meta c = (c == b'\\') || ((c == b'%') || (c == b'_'))

-- What Postgres documents of `text LIKE pattern`: a plain code point and one behind a backslash
-- match themselves only, and a pattern that is one per cent sign matches every text.
pub record LikeLaws (like : Text → Text → Bool) : Type 0 where
  pub plain :
      (c d : ℕ) (p s : Text) → is_meta c ≡ false → like (c ∷ p) (d ∷ s) ≡ ((c == d) && like p s)
  pub plain_end : (c : ℕ) (p : Text) → is_meta c ≡ false → like (c ∷ p) [] ≡ false
  pub escaped : (c d : ℕ) (p s : Text) → like (b'\\' ∷ c ∷ p) (d ∷ s) ≡ ((c == d) && like p s)
  pub escaped_end : (c : ℕ) (p : Text) → like (b'\\' ∷ c ∷ p) [] ≡ false
  pub any_text : (s : Text) → like (b'%' ∷ []) s ≡ true

module _ (like : Text → Text → Bool) where
  -- `ListTenantsByPrefix`; the rows stand in the order of their names.
  unfoldable pub list_tenants_by_prefix : Text → List Tenant → List Tenant
  list_tenants_by_prefix pattern rows = select (λ (t : Tenant). like pattern t.id) rows

  -- `ListByPrefix`, where the query answers.
  unfoldable pub list_by_prefix : Text → List Tenant → List Tenant
  list_by_prefix prefix rows = list_tenants_by_prefix (escape_like prefix ++ b'%' ∷ []) rows

-- `GetTenant`
unfoldable pub get_tenant : Text → List Tenant → Option Tenant
get_tenant id [] = none
get_tenant id (t ∷ rows) = if same_text t.id id then some t else get_tenant id rows

-- A row at its place in the order of names, which is that of the database's collation.
unfoldable pub insert_by_name : (String → String → Bool) → Tenant → List Tenant → List Tenant
insert_by_name precedes t [] = t ∷ []
insert_by_name precedes t (u ∷ rows) =
    let rest = insert_by_name precedes t rows in
    if precedes t.name u.name then t ∷ u ∷ rows else u ∷ rest

-- `UpsertTenant`: a row of this key is replaced, and one that is not there is added.
unfoldable pub upsert_tenant : (String → String → Bool) → Tenant → List Tenant → List Tenant
upsert_tenant precedes t rows =
    insert_by_name precedes t (select (λ (u : Tenant). not (same_text u.id t.id)) rows)
