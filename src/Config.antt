-- ===== src/Config.antt =====
-- The configuration that the processes read from their environment: internal/config/config.go.
-- An environment gives every variable a text, the empty one where it is not set.
pub mod Modes
pub mod Companies
mod Tests
use Prim.Native.Char.{Char, code}
use Prim.Native.String.{◌++◌ as append_str}
use cobalt_dingo.Prelude.{
  ℕ, Bool, true, false, not, ◌&&◌, ◌||◌, Option, none, some, List, [], ◌∷◌, ◌++◌, String, str_eq,
  ◌==◌, if◌then◌else◌, Result, ok, err, select, map,
}
use cobalt_dingo.Words.{trim_str, equal_fold_str}

abbrev pub Env : Type 0
Env = String → String

abbrev pub mode_sandbox : String
mode_sandbox = "sandbox"

abbrev pub mode_production : String
mode_production = "production"

unfoldable pub is_valid : String → Bool
is_valid m = str_eq m mode_sandbox || str_eq m mode_production

unfoldable pub is_sandbox : String → Bool
is_sandbox m = str_eq m mode_sandbox

unfoldable pub is_production : String → Bool
is_production m = str_eq m mode_production

unfoldable pub env_prefix : String → String
env_prefix m =
    if str_eq m mode_sandbox
    then "FORTNOX_SANDBOX_"
    else if str_eq m mode_production
    then "FORTNOX_PRODUCTION_"
    else ""

unfoldable pub token_file : String → String
token_file m =
    if str_eq m mode_sandbox
    then ".fortnox-tokens-sandbox.json"
    else if str_eq m mode_production
    then ".fortnox-tokens-production.json"
    else ""

unfoldable pub label : String → String
label m =
    if str_eq m mode_sandbox
    then "SANDBOX"
    else if str_eq m mode_production
    then "PRODUCTION"
    else m

pub record Fortnox : Type 0 where
  pub mode : String
  pub client_id : String
  pub client_secret : String
  pub redirect_uri : String
  pub scopes : String
  pub invoice_inbox : String
  pub allows_writes : Bool
  pub account_type : String
  pub allowed_companies : List String
  pub base_url_override : String

unfoldable pub base_url : Fortnox → String
base_url f =
    if not (str_eq f.base_url_override "") then f.base_url_override else "https://api.fortnox.se"

pub record App : Type 0 where
  pub database_url : String
  pub port : String

unfoldable pub load_app : Env → App
load_app env = record {
  database_url = env "DATABASE_URL";
  port = if str_eq (env "PORT") "" then "8080" else env "PORT";
}

pub record Debtor : Type 0 where
  pub name : String
  pub iban : String
  pub bic : String

unfoldable pub load_debtor : Env → Debtor
load_debtor env =
    let own : Debtor = record {
      name = env "COBALT_DEBTOR_NAME";
      iban = env "COBALT_DEBTOR_IBAN";
      bic = env "COBALT_DEBTOR_BIC";
    } in
    let placeholder : Debtor = record {
      name = "Cobalt Dingo AB";
      iban = "SE4550000000058398257466";
      bic = "ESSESESS";
    } in
    if str_eq own.name "" || (str_eq own.iban "" || str_eq own.bic "") then placeholder else own

pub record Llm : Type 0 where
  pub gateway_url : String
  pub api_key : String
  pub default_model : String
  pub escalation_model : String

unfoldable pub llm_is_enabled : Llm → Bool
llm_is_enabled l =
    not (str_eq l.gateway_url "") && (not (str_eq l.api_key "") && not (str_eq l.default_model ""))

unfoldable pub load_llm : Env → Llm
load_llm env = record {
  gateway_url = env "LLM_BASE_URL";
  api_key = env "DMABE_LLMAPI_KEY";
  default_model =
      if str_eq (env "LLM_DEFAULT_MODEL") "" then "iguana/gemma4-31b" else env "LLM_DEFAULT_MODEL";
  escalation_model = env "LLM_ESCALATION_MODEL";
}

pub record Oidc : Type 0 where
  pub issuer_url : String
  pub client_id : String
  pub client_secret : String
  pub redirect_url : String

unfoldable pub oidc_is_enabled : Oidc → Bool
oidc_is_enabled o =
    not (str_eq o.issuer_url "")
    && (not (str_eq o.client_id "")
        && (not (str_eq o.client_secret "") && not (str_eq o.redirect_url "")))

unfoldable pub load_oidc : Env → Oidc
load_oidc env = record {
  issuer_url = env "OIDC_ISSUER_URL";
  client_id = env "OIDC_CLIENT_ID";
  client_secret = env "OIDC_CLIENT_SECRET";
  redirect_url = env "OIDC_REDIRECT_URL";
}

unfoldable pub load_session_secret : Env → String
load_session_secret env = env "SESSION_SECRET"

unfoldable pub allow_unauthenticated : Env → Bool
allow_unauthenticated env = str_eq (env "COBALT_ALLOW_UNAUTHENTICATED") "true"

-- The value of the mode, or the one that the modes share.
unfoldable pub credential : Env → String → String → String
credential env p suffix =
    let own : String = env (append_str p suffix) in
    if not (str_eq own "") then own else env (append_str "FORTNOX_" suffix)

abbrev pub with_head : Char → List String → List String
with_head c [] = String.◌∷◌ c "" ∷ []
with_head c (p ∷ ps) = String.◌∷◌ c p ∷ ps

-- `strings.Split(s, ",")`
unfoldable pub split_comma : String → List String
split_comma String.[] = "" ∷ []
split_comma (String.◌∷◌ c s) =
    let rest = split_comma s in if code c == b',' then "" ∷ rest else with_head c rest

abbrev pub is_name : String → Bool
is_name s = not (str_eq s "")

unfoldable pub split_companies : String → List String
split_companies raw =
    if str_eq (trim_str raw) "" then [] else select is_name (map trim_str (split_comma raw))

module _ (fold : ℕ → ℕ) where
  unfoldable pub is_listed : String → List String → Bool
  is_listed name [] = false
  is_listed name (allowed ∷ rest) =
      equal_fold_str fold (trim_str allowed) (trim_str name) || is_listed name rest

  abbrev pub allowed_by : List String → String → Bool
  allowed_by [] name = true
  allowed_by (allowed ∷ rest) name = is_listed name (allowed ∷ rest)

  unfoldable pub company_allowed : Fortnox → String → Bool
  company_allowed f name = allowed_by f.allowed_companies name

-- What `LoadAllModes` reads for a mode.
abbrev pub read_offered : Env → String → String → Fortnox
read_offered env m account_type =
    let p : String = env_prefix m in
    record {
      mode = m;
      client_id = credential env p "CLIENT_ID";
      client_secret = credential env p "CLIENT_SECRET";
      redirect_uri = env (append_str p "REDIRECT_URI");
      scopes = env (append_str p "SCOPES");
      invoice_inbox = env (append_str p "INVOICE_INBOX");
      allows_writes = str_eq (env (append_str p "ALLOW_WRITES")) "true";
      account_type = account_type;
      allowed_companies = split_companies (env (append_str p "ALLOWED_COMPANIES"));
      base_url_override = "";
    }

-- What `Load` reads for a mode: no account type.
abbrev pub read_mode : Env → String → Fortnox
read_mode env m =
    let p : String = env_prefix m in
    record {
      mode = m;
      client_id = credential env p "CLIENT_ID";
      client_secret = credential env p "CLIENT_SECRET";
      redirect_uri = env (append_str p "REDIRECT_URI");
      scopes = env (append_str p "SCOPES");
      invoice_inbox = env (append_str p "INVOICE_INBOX");
      allows_writes = str_eq (env (append_str p "ALLOW_WRITES")) "true";
      account_type = "";
      allowed_companies = split_companies (env (append_str p "ALLOWED_COMPANIES"));
      base_url_override = "";
    }

pub data LoadError : Type 0 where
  mode_not_set : LoadError
  mode_not_recognized : String → LoadError
  no_client_id : String → LoadError
  no_client_secret : String → LoadError
  no_redirect_uri : String → LoadError

-- `Load` once `FORTNOX_MODE` is read.
abbrev pub load_as : Env → String → Result LoadError Fortnox
load_as env m =
    let cfg : Fortnox = read_mode env m in
    if str_eq m ""
    then err mode_not_set
    else if not (is_valid m)
    then err (mode_not_recognized m)
    else if str_eq cfg.client_id ""
    then err (no_client_id m)
    else if str_eq cfg.client_secret ""
    then err (no_client_secret m)
    else if str_eq cfg.redirect_uri ""
    then err (no_redirect_uri m)
    else ok cfg

-- `Load`
unfoldable pub load : Env → Result LoadError Fortnox
load env = load_as env (env "FORTNOX_MODE")

pub data Incomplete : Type 0 where
  invalid_account_type : String → Incomplete
  missing_values : String → List String → Incomplete

-- What the loop of `LoadAllModes` does with a mode: nothing, a reason, or a configuration.
pub data Offer : Type 0 where
  absent : Offer
  unusable : Incomplete → Offer
  offered : Fortnox → Offer

unfoldable pub valid_account_type : String → Bool
valid_account_type t = str_eq t "" || str_eq t "service"

abbrev pub missing_of : Env → String → List String
missing_of env p =
    (if str_eq (credential env p "CLIENT_SECRET") ""
      then append_str p "CLIENT_SECRET or FORTNOX_CLIENT_SECRET" ∷ []
      else [])
    ++ (if str_eq (env (append_str p "REDIRECT_URI")) ""
        then append_str p "REDIRECT_URI" ∷ []
        else [])

abbrev pub offer_unless : String → List String → Fortnox → Offer
offer_unless m [] f = offered f
offer_unless m (v ∷ vs) f = unusable (missing_values m (v ∷ vs))

unfoldable pub load_mode : Env → String → Offer
load_mode env m =
    let p : String = env_prefix m in
    let account_type : String = env (append_str p "ACCOUNT_TYPE") in
    if str_eq (credential env p "CLIENT_ID") ""
    then absent
    else if not (valid_account_type account_type)
    then unusable (invalid_account_type m)
    else offer_unless m (missing_of env p) (read_offered env m account_type)

-- The map of the offered modes and the reasons, in the order of the loop.
abbrev pub collect :
    Offer
    → String
    → List (String × Fortnox) × List Incomplete
    → List (String × Fortnox) × List Incomplete
collect absent m (modes, reasons) = (modes, reasons)
collect (unusable r) m (modes, reasons) = (modes, r ∷ reasons)
collect (offered f) m (modes, reasons) = ((m, f) ∷ modes, reasons)

-- `LoadAllModes`
unfoldable pub load_all_modes : Env → List (String × Fortnox) × List Incomplete
load_all_modes env =
    collect (load_mode env mode_sandbox) mode_sandbox
      (collect (load_mode env mode_production) mode_production ([], []))

unfoldable pub find_mode : String → List (String × Fortnox) → Option Fortnox
find_mode m [] = none
find_mode m ((k, f) ∷ modes) = if str_eq k m then some f else find_mode m modes

abbrev pub named_if : Option Fortnox → String → List String → List String
named_if none m rest = rest
named_if (some f) m rest = m ∷ rest

-- `OfferedModes`
unfoldable pub offered_modes : List (String × Fortnox) → List String
offered_modes modes =
    named_if (find_mode mode_sandbox modes) mode_sandbox
      (named_if (find_mode mode_production modes) mode_production [])
