-- ===== src/Connect.antt =====
-- The pages by which a user connects Fortnox companies: internal/ui/fortnox_connect.go. The stores
-- are rows of a world; Fortnox, the integration of an owner and the random source are parameters.
pub mod Callback
pub mod Pages
pub mod Stored
pub mod Refused
pub mod Listed
mod Tests
use cobalt_dingo.Prelude.{
  ℕ, Bool, true, false, Option, none, some, List, [], ◌∷◌, ◌++◌, String, select, if◌then◌else◌,
  Result, ok, err, not, ◌>>=◌,
}
use cobalt_dingo.Prelude.Text.{Text, same_text, after_prefix}
use cobalt_dingo.Dates.{Instant, codes}
use cobalt_dingo.Config.{Fortnox, mode_sandbox, mode_production, find_mode, is_valid}
use cobalt_dingo.Tokens.{OauthToken}
use cobalt_dingo.Tenants.{Tenant}
use cobalt_dingo.Auth.{Session}

-- `domain.Company`, as `discoverCompany` fills it.
pub record Company : Type 0 where
  pub name : String
  pub org_number : Text

-- `FortnoxConnector`, with what its seams return.
pub record Connector : Type 0 where
  pub configs : List (String × Fortnox)
  pub has_tenant_repo : Bool
  pub has_sessions : Bool
  pub resolve : Text → Fortnox → Result String Fortnox
  pub exchange_code : Fortnox → Text → Result String OauthToken
  pub discover_company : Fortnox → String → Result String Company
  pub new_nonce : Result String Text
  pub fold : ℕ → ℕ
  pub like : Text → Text → Bool
  pub precedes : String → String → Bool

-- The rows of the stores, and the session that was last set as a cookie.
pub record World : Type 0 where
  pub tokens : List (Text × OauthToken)
  pub tenants : List Tenant
  pub cookie : Option Session

-- The calls of the stores that fail during a request. A failed call changes nothing.
pub record Faults : Type 0 where
  pub load_fails : Text → Bool
  pub save_fails : Bool
  pub delete_fails : Bool
  pub list_fails : Bool
  pub get_fails : Bool
  pub upsert_fails : Bool
  pub set_fails : Bool

pub data Refusal : Type 0 where
  not_authenticated missing_code invalid_state other_session invalid_mode : Refusal
  unresolved nonce_failed no_sessions session_error : Refusal
  exchange_failed company_unknown no_org_number : Refusal
  company_not_allowed : String → String → List String → Refusal
  company_conflict : String → Text → String → Refusal
  tenant_setup_failed token_save_failed : Refusal
  no_config : String → Refusal
  no_company disconnect_failed not_connected : Refusal

-- The parameters of the authorize URL that vary.
pub record Authorize : Type 0 where
  pub client_id : String
  pub redirect_uri : String
  pub scope : String
  pub state : Text
  pub account_type : Option String

pub data Response : Type 0 where
  refused : Refusal → Response
  authorize : Authorize → Response
  connected : String → Response
  disconnected : String → Response
  selected : Response

-- `config.Mode(m)` where it is valid.
abbrev pub mode_of : Text → Option String
mode_of m =
    if same_text m (codes mode_sandbox)
    then some mode_sandbox
    else if same_text m (codes mode_production)
    then some mode_production
    else none

unfoldable pub find_token : Text → List (Text × OauthToken) → Option OauthToken
find_token key [] = none
find_token key ((k, tok) ∷ rows) = if same_text k key then some tok else find_token key rows

-- `TokenStore.Save`
unfoldable pub save_token : Text → OauthToken → List (Text × OauthToken) → List (Text × OauthToken)
save_token key tok [] = (key, tok) ∷ []
save_token key tok ((k, t) ∷ rows) =
    let rest = save_token key tok rows in
    if same_text k key then (key, tok) ∷ rows else (k, t) ∷ rest

-- `TokenStore.Delete`
unfoldable pub delete_token : Text → List (Text × OauthToken) → List (Text × OauthToken)
delete_token key [] = []
delete_token key ((k, t) ∷ rows) =
    let rest = delete_token key rows in if same_text k key then rest else (k, t) ∷ rest

-- Whether `TokenStore.Load` returns a token.
abbrev pub is_some : {A : Type 0} → Option A → Bool
is_some none = false
is_some (some a) = true

abbrev pub loads : Faults → World → Text → Bool
loads faults w key = if faults.load_fails key then false else is_some (find_token key w.tokens)

abbrev pub found_config : String → Option Fortnox → Result Refusal Fortnox
found_config mode none = err unresolved
found_config mode (some app_level) = ok app_level

abbrev pub as_unresolved : Result String Fortnox → Result Refusal Fortnox
as_unresolved (err e) = err unresolved
as_unresolved (ok cfg) = ok cfg

-- `resolveFor`
unfoldable pub resolve_for : Connector → Session → String → Result Refusal Fortnox
resolve_for c s mode = do
  app_level ← found_config mode (find_mode mode c.configs)
  as_unresolved (c.resolve s.owner app_level)

-- `sessions.Set`
abbrev pub set_cookie : Faults → Session → World → Response → Response × World
set_cookie faults s w done =
    if faults.set_fails then (refused session_error, w) else (done, record w { cookie = some s })
