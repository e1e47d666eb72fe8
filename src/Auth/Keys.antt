-- ===== src/Auth/Keys.antt =====
-- The key that credentials are stored by: `CompanyKey`, `TenantKey` and `TenantID` of
-- internal/auth/session.go.
use cobalt_dingo.Prelude.{
  ℕ, Bool, not, ◌&&◌, ◌∷◌, ◌++◌, String, leb, if◌then◌else◌, select, Result, ok, err,
}
use cobalt_dingo.Prelude.Text.{Text, trim_space, is_empty_text}
use cobalt_dingo.Dates.{codes}
use cobalt_dingo.Config.{is_valid}
use cobalt_dingo.Auth.{Session}

abbrev pub is_digit : ℕ → Bool
is_digit c = leb b'0' c && leb c b'9'

-- `CompanyKey`: the digits of an organisation number.
unfoldable pub company_key : Text → Text
company_key org_number = select is_digit org_number

-- `TenantKey`
unfoldable pub tenant_key : Text → String → Text → Text
tenant_key owner mode company = owner ++ b':' ∷ (codes mode ++ b':' ∷ company_key company)

pub data TenantError : Type 0 where
  no_credential_owner : TenantError
  invalid_mode : String → TenantError
  no_company_selected : TenantError

-- `Session.TenantID`
unfoldable pub tenant_id : Session → Result TenantError Text
tenant_id s =
    if is_empty_text (trim_space s.owner)
    then err no_credential_owner
    else if not (is_valid s.mode)
    then err (invalid_mode s.mode)
    else if is_empty_text (company_key s.company)
    then err no_company_selected
    else ok (tenant_key (trim_space s.owner) s.mode (company_key s.company))
