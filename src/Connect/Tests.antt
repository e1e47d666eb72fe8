-- ===== src/Connect/Tests.antt =====
-- One user who connects a company, chooses it and disconnects it.
use cobalt_dingo.Prelude.{◌≡◌, refl, true, false, none, some, [], ◌∷◌, ok, map, select}
use cobalt_dingo.Prelude.Int.{pos}
use cobalt_dingo.Prelude.Text.{
  Text, same_text, after_prefix, contains, trim_space, trim_left, trim_right, is_space,
}
use cobalt_dingo.Dates.{Instant, codes, sub_time}
use cobalt_dingo.Words.{trim_str, trim_str_left, trim_str_right, equal_fold_str}
use cobalt_dingo.Tokens.{OauthToken}
use cobalt_dingo.Tenants.{get_tenant, upsert_tenant, insert_by_name}
use cobalt_dingo.Tenants.Tests.{like, like-LikeLaws}
use cobalt_dingo.Config.{Fortnox, find_mode, company_allowed, is_listed, is_valid}
use cobalt_dingo.Auth.{Session, oauth_nonce_valid, oauth_state, cut}
use cobalt_dingo.Auth.Keys.{company_key, tenant_key}
use cobalt_dingo.Connect.{
  Connector, World, Faults, Company, Refusal, find_token, save_token, delete_token, resolve_for,
  connected, refused, selected, disconnected,
}
use cobalt_dingo.Connect.Callback.{Grant, callback_handler, check_callback}
use cobalt_dingo.Connect.Pages.{
  connected_companies, any_company_connected, select_company_handler, disconnect_handler,
}
use cobalt_dingo.Connect.Stored.{callback_handler-IsConnected, IsGranted, IsConnected}
use cobalt_dingo.Connect.Refused.{callback_handler-refused, StoresNothing}
use cobalt_dingo.Connect.Listed.{
  select_company_handler-IsSelected, IsSelected, connected_companies-select, choice_of, is_usable,
  any_company_connected-connected_companies, some_listed,
}

abbrev sandbox : Fortnox
sandbox = record {
  mode = "sandbox";
  client_id = "app";
  client_secret = "key";
  redirect_uri = "https://here";
  scopes = "invoice";
  invoice_inbox = "";
  allows_writes = false;
  account_type = "";
  allowed_companies = "Alpha" ∷ [];
  base_url_override = "";
}

abbrev token : OauthToken
token = record { access_token = "a"; refresh_token = "r"; expires_at = pos 9 }

abbrev alpha : Company
alpha = record { name = "Alpha"; org_number = b'5' ∷ b'-' ∷ b'6' ∷ [] }

abbrev connector : Connector
connector = record {
  configs = ("sandbox", sandbox) ∷ [];
  has_tenant_repo = true;
  has_sessions = true;
  resolve = λ owner cfg. ok cfg;
  exchange_code = λ cfg code. ok token;
  discover_company = λ cfg access. ok alpha;
  new_nonce = ok (b'n' ∷ []);
  fold = λ c. c;
  like = like;
  precedes = λ a b. false;
}

abbrev faultless : Faults
faultless = record {
  load_fails = λ key. false;
  save_fails = false;
  delete_fails = false;
  list_fails = false;
  get_fails = false;
  upsert_fails = false;
  set_fails = false;
}

abbrev session : Session
session = record {
  owner = b'u' ∷ [];
  sub = [];
  email = [];
  name = [];
  mode = "production";
  company = [];
  fortnox_nonce = b'n' ∷ [];
  fortnox_nonce_at = pos 100;
  expires_at = pos 0;
}

abbrev empty : World
empty = record { tokens = []; tenants = []; cookie = none }

abbrev code : Text
code = b'c' ∷ []

abbrev state : Text
state = oauth_state (b'n' ∷ []) (codes "sandbox")

abbrev now : Instant
now = pos 200

abbrev key : Text
key = tenant_key (b'u' ∷ []) "sandbox" (b'5' ∷ b'6' ∷ [])

abbrev after : Session
after = record session {
  fortnox_nonce = [];
  fortnox_nonce_at = pos 0;
  mode = "sandbox";
  company = b'5' ∷ b'6' ∷ [];
}

abbrev registered : World
registered = record {
  tokens = (key, token) ∷ [];
  tenants = record { id = key; name = "Alpha" } ∷ [];
  cookie = some after;
}

abbrev grant : Grant
grant = record { mode = "sandbox"; token = token; company = alpha }

granted : check_callback connector now session code state ≡ ok grant
unfolding check_callback cut contains after_prefix oauth_nonce_valid trim_space trim_left trim_right
    is_space codes same_text resolve_for find_mode company_key company_allowed trim_str
    trim_str_left trim_str_right equal_fold_str sub_time is_listed
granted = refl

callback_done :
    callback_handler connector faultless now (some session) code state empty
    ≡ (connected "sandbox", registered)
unfolding callback_handler get_tenant upsert_tenant insert_by_name save_token company_key
callback_done = rw granted (refl)

callback_handler-IsConnected_example :
    (g : Grant) × IsGranted connector now session code state g × IsConnected g empty registered
unfolding trim_space trim_left trim_right is_space
callback_handler-IsConnected_example =
    callback_handler-IsConnected connector faultless now session code state empty registered
      "sandbox" refl refl callback_done

abbrev unsaved : Faults
unsaved = record faultless { save_fails = true }

abbrev listed_only : World
listed_only = record empty { tenants = record { id = key; name = "Alpha" } ∷ [] }

not_saved :
    callback_handler connector unsaved now (some session) code state empty
    ≡ (refused Refusal.token_save_failed, listed_only)
unfolding callback_handler get_tenant upsert_tenant insert_by_name company_key
not_saved = rw granted (refl)

callback_handler-refused_example : StoresNothing Refusal.token_save_failed empty listed_only
callback_handler-refused_example =
    callback_handler-refused connector unsaved now (some session) code state empty listed_only
      Refusal.token_save_failed not_saved

abbrev held : World
held = record empty { tenants = record { id = key; name = "Beta" } ∷ [] }

-- The registry cannot be read: the row of the other company is renamed and its token replaced.
unread :
    callback_handler connector
      (record faultless { get_fails = true })
      now
      (some session)
      code
      state
      (record held { tokens = (key, record token { access_token = "b" }) ∷ [] })
    ≡ (connected "sandbox", registered)
unfolding callback_handler upsert_tenant insert_by_name save_token company_key tenant_key same_text
    codes
unread = rw granted (refl)

choice_done :
    select_company_handler connector faultless (some after) (b'5' ∷ b'6' ∷ []) registered
    ≡ (selected, registered)
unfolding select_company_handler find_token tenant_key company_key same_text codes
choice_done = refl

select_company_handler-IsSelected_example : IsSelected faultless registered registered
unfolding trim_space trim_left trim_right is_space is_valid
select_company_handler-IsSelected_example =
    select_company_handler-IsSelected connector faultless after (b'5' ∷ b'6' ∷ []) registered
      registered refl refl refl choice_done

connected_companies-select_example :
    connected_companies connector faultless after registered
    ≡ map (choice_of after) (select (is_usable faultless after registered) registered.tenants)
connected_companies-select_example =
    connected_companies-select connector faultless after registered like-LikeLaws refl refl

any_company_connected-connected_companies_example :
    any_company_connected connector faultless after.owner after.mode registered
    ≡ some_listed (connected_companies connector faultless after registered)
any_company_connected-connected_companies_example =
    any_company_connected-connected_companies connector faultless after registered like-LikeLaws

disconnect_done :
    disconnect_handler connector faultless (some after) (codes "sandbox") [] registered
    ≡ (disconnected "sandbox", record registered { tokens = [] })
unfolding disconnect_handler delete_token tenant_key company_key same_text codes find_mode
disconnect_done = refl
