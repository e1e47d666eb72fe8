-- ===== src/Clitoken/Tests.antt =====
-- Two companies in one mode, one of them asked for by name.
use cobalt_dingo.Prelude.{ℕ, ◌+◌, ◌*◌, ◌-◌, ◌≡◌, refl, true, List, [], ◌∷◌, select, Has, ok, err}
use cobalt_dingo.Prelude.Int.{pos, negsuc, ◌-ℤ◌}
use cobalt_dingo.Prelude.Text.{same_text, contains, after_prefix, is_space}
use cobalt_dingo.Dates.{codes, ns_per_day}
use cobalt_dingo.Words.{trim_str, trim_str_left, trim_str_right, equal_fold_str}
use cobalt_dingo.Clitoken.{
  Tenant, several_connected, in_mode, named, select_tenant, truncate_day, FinancialYear,
  select_financial_year,
}
use cobalt_dingo.Clitoken.Chosen.{IsChosen, select_tenant-IsChosen}

abbrev fold : ℕ → ℕ
fold c = c

abbrev alpha : Tenant
alpha = record { id = "o:sandbox:1"; name = "Alpha" }

abbrev beta : Tenant
beta = record { id = "o:sandbox:2"; name = "Beta" }

abbrev tenants : List Tenant
tenants = alpha ∷ record { id = "o:production:1"; name = "Beta" } ∷ beta ∷ []

is_selected : select_tenant fold tenants "sandbox" " Beta " ≡ ok beta
unfolding named contains after_prefix codes trim_str trim_str_left trim_str_right equal_fold_str
    same_text is_space
is_selected = refl

unnamed :
    select_tenant fold tenants "sandbox" ""
    ≡ err (several_connected "sandbox" ("Alpha" ∷ "Beta" ∷ []))
unfolding contains after_prefix codes trim_str trim_str_left trim_str_right
unnamed = refl

select_tenant-IsChosen_example :
    Has beta tenants
    × (in_mode "sandbox" beta ≡ true)
    × IsChosen fold "sandbox" (trim_str " Beta ") (select (in_mode "sandbox") tenants) beta
select_tenant-IsChosen_example =
    select_tenant-IsChosen fold "sandbox" tenants " Beta " beta is_selected

abbrev year : FinancialYear
year = record { id = 3; from = pos 0; to = pos (364 * ns_per_day) }

last_day : select_financial_year (year ∷ []) (pos (364 * ns_per_day + 5)) ≡ ok year
last_day = refl

before_zero : truncate_day (negsuc 0) ≡ negsuc (ns_per_day - 1)
unfolding ◌-ℤ◌
before_zero = refl
