-- ===== src/Config/Tests.antt =====
-- An environment with a usable sandbox and a production mode that lacks its redirect URI.
use cobalt_dingo.Prelude.{◌≡◌, refl, true, List, [], ◌∷◌, String, str_eq, if◌then◌else◌, ok, none}
use cobalt_dingo.Words.{trim_str, trim_str_right, trim_str_left}
use cobalt_dingo.Prelude.Text.{is_space}
use cobalt_dingo.Config.{
  load_mode, split_comma, Env, Fortnox, load, load_all_modes, find_mode, offered_modes, credential,
  valid_account_type, is_valid, env_prefix, split_companies,
}
use cobalt_dingo.Config.Modes.{
  load-load_all_modes, load-IsLoaded, IsLoaded, without_account_type, loaded, account_type_of,
}

abbrev env : Env
env name =
    if str_eq name "FORTNOX_MODE"
    then "sandbox"
    else if str_eq name "FORTNOX_CLIENT_ID"
    then "app"
    else if str_eq name "FORTNOX_CLIENT_SECRET"
    then "key"
    else if str_eq name "FORTNOX_SANDBOX_REDIRECT_URI"
    then "https://here/callback"
    else if str_eq name "FORTNOX_SANDBOX_ACCOUNT_TYPE"
    then "service"
    else if str_eq name "FORTNOX_SANDBOX_ALLOW_WRITES"
    then "true"
    else ""

abbrev sandbox : Fortnox
sandbox = record {
  mode = "sandbox";
  client_id = "app";
  client_secret = "key";
  redirect_uri = "https://here/callback";
  scopes = "";
  invoice_inbox = "";
  allows_writes = true;
  account_type = "";
  allowed_companies = [];
  base_url_override = "";
}

sandbox_loads : load env ≡ ok sandbox
unfolding load is_valid env_prefix credential split_companies trim_str trim_str_right trim_str_left
sandbox_loads = refl

sandbox_offered : offered_modes (load_all_modes env).0 ≡ "sandbox" ∷ []
unfolding offered_modes load_all_modes load_mode find_mode env_prefix credential valid_account_type
sandbox_offered = refl

load-load_all_modes_example :
    without_account_type (find_mode (env "FORTNOX_MODE") (load_all_modes env).0) ≡ (
      if valid_account_type (account_type_of env (env "FORTNOX_MODE"))
      then loaded (load env)
      else none)
unfolding is_valid
load-load_all_modes_example = load-load_all_modes env refl

load-IsLoaded_example : IsLoaded env sandbox
load-IsLoaded_example = load-IsLoaded env sandbox sandbox_loads

abbrev names : List String
names = "TEST Cobalt Dingo" ∷ "Volym AB" ∷ []

comma_spaced : split_companies " TEST Cobalt Dingo , ,Volym AB" ≡ names
unfolding split_companies split_comma trim_str trim_str_right trim_str_left is_space
comma_spaced = refl
