-- ===== src/Clitoken.antt =====
-- The company and the financial year that a command reads: internal/clitoken/select.go and year.go.
-- `fold` is the least code point of a case folding orbit.
pub mod Chosen
mod Tests
use cobalt_dingo.Prelude.{
  ℕ, suc, ◌+◌, ◌-◌, ◌*◌, ◌/◌, Bool, ◌&&◌, not, List, [], ◌∷◌, ◌++◌, map, select, String, str_eq,
  if◌then◌else◌, Result, ok, err,
}
use cobalt_dingo.Prelude.Int.{ℤ, pos, negsuc, ◌-ℤ◌, leb_ℤ}
use cobalt_dingo.Prelude.Text.{Text, contains}
use cobalt_dingo.Dates.{Instant, codes, ns_per_day}
use cobalt_dingo.Words.{trim_str, equal_fold_str}

pub record Tenant : Type 0 where
  pub id : String
  pub name : String

pub data TenantError : Type 0 where
  none_connected : String → TenantError
  not_connected : String → String → TenantError
  several_connected : String → List String → TenantError

-- Whether ":" mode ":" stands in the identifier of the tenant.
abbrev pub in_mode : String → Tenant → Bool
in_mode mode t = contains (codes t.id) (b':' ∷ (codes mode ++ b':' ∷ []))

module _ (fold : ℕ → ℕ) where
  abbrev pub has_name : String → Tenant → Bool
  has_name want t = equal_fold_str fold (trim_str t.name) want

  -- The first match of the name that is wanted.
  unfoldable pub named : String → String → List Tenant → Result TenantError Tenant
  named mode want [] = err (not_connected want mode)
  named mode want (t ∷ matches) =
      let rest = named mode want matches in if has_name want t then ok t else rest

  abbrev pub only : String → List Tenant → Result TenantError Tenant
  only mode [] = err (none_connected mode)
  only mode (t ∷ []) = ok t
  only mode (t ∷ u ∷ matches) =
      err (several_connected mode (map (λ (x : Tenant). x.name) (t ∷ u ∷ matches)))

  abbrev pub choose : String → String → List Tenant → Result TenantError Tenant
  choose mode want [] = err (none_connected mode)
  choose mode want (t ∷ matches) =
      if str_eq want "" then only mode (t ∷ matches) else named mode want (t ∷ matches)

  -- `SelectTenant`
  abbrev pub select_tenant : List Tenant → String → String → Result TenantError Tenant
  select_tenant tenants mode company =
      choose mode (trim_str company) (select (in_mode mode) tenants)

pub record FinancialYear : Type 0 where
  pub id : ℕ
  pub from : Instant
  pub to : Instant

pub data YearError : Type 0 where
  no_years : YearError
  uncovered : Instant → List FinancialYear → YearError
  overlapping : Instant → List FinancialYear → YearError

-- `on.Truncate(24 * time.Hour)`, down to a whole day since the zero time.
abbrev pub truncate_day : Instant → Instant
truncate_day (pos n) = pos (n / ns_per_day * ns_per_day)
truncate_day (negsuc n) = pos 0 -ℤ pos ((n + ns_per_day) / ns_per_day * ns_per_day)

abbrev pub covers : Instant → FinancialYear → Bool
covers day y = leb_ℤ y.from day && leb_ℤ day y.to

abbrev pub one_of :
    Instant → List FinancialYear → List FinancialYear → Result YearError FinancialYear
one_of day years [] = err (uncovered day years)
one_of day years (y ∷ []) = ok y
one_of day years (y ∷ z ∷ matches) = err (overlapping day (y ∷ z ∷ matches))

-- `SelectFinancialYear`
abbrev pub select_financial_year : List FinancialYear → Instant → Result YearError FinancialYear
select_financial_year [] on = err no_years
select_financial_year (y ∷ years) on =
    one_of (truncate_day on) (y ∷ years) (select (covers (truncate_day on)) (y ∷ years))
