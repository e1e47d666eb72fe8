-- ===== src/Connect/Callback.antt =====
-- `connectHandler` and `callbackHandler` of internal/ui/fortnox_connect.go.
use cobalt_dingo.Prelude.{
  not, Option, none, some, [], String, str_eq, if◌then◌else◌, Result, ok, err, ◌>>=◌, ◌>>◌, fail_if,
}
use cobalt_dingo.Prelude.Int.{pos}
use cobalt_dingo.Prelude.Text.{Text, is_empty_text}
use cobalt_dingo.Dates.{Instant, codes}
use cobalt_dingo.Config.{Fortnox, company_allowed}
use cobalt_dingo.Tokens.{OauthToken}
use cobalt_dingo.Tenants.{Tenant, get_tenant, upsert_tenant}
use cobalt_dingo.Auth.{Session, oauth_nonce_valid, oauth_state, parse_oauth_state}
use cobalt_dingo.Auth.Keys.{company_key, tenant_key}
use cobalt_dingo.Connect.{
  Connector, World, Faults, Refusal, Response, Company, mode_of, save_token, resolve_for,
  set_cookie, refused, authorize, connected, missing_code, invalid_state, other_session,
  invalid_mode, nonce_failed, no_sessions, exchange_failed, company_unknown, no_org_number,
  company_not_allowed, company_conflict, tenant_setup_failed, token_save_failed, not_authenticated,
}

abbrev pub mode_or : String → Option String → String
mode_or mode none = mode
mode_or mode (some m) = m

abbrev pub or_fail : {E A B : Type 0} → B → Result E A → Result B A
or_fail e (err failure) = err e
or_fail e (ok value) = ok value

abbrev pub some_or_fail : {A B : Type 0} → B → Option A → Result B A
some_or_fail e none = err e
some_or_fail e (some value) = ok value

abbrev pub authorize_with : Fortnox → Text → String → Response
authorize_with cfg nonce mode = authorize record {
  client_id = cfg.client_id;
  redirect_uri = cfg.redirect_uri;
  scope = cfg.scopes;
  state = oauth_state nonce (codes mode);
  account_type = if str_eq cfg.account_type "" then none else some cfg.account_type;
}

-- What is known before the nonce is kept in the session.
abbrev pub prepare : Connector → Session → String → Result Refusal (Fortnox × Text)
prepare c s mode = do
  cfg ← resolve_for c s mode
  nonce ← or_fail nonce_failed c.new_nonce
  fail_if (not c.has_sessions) no_sessions
  ok (cfg, nonce)

abbrev pub start :
    Faults → Instant → Session → String → Result Refusal (Fortnox × Text) → World → Response × World
start faults now s mode (err r) w = (refused r, w)
start faults now s mode (ok (cfg, nonce)) w =
    set_cookie faults (record s { fortnox_nonce = nonce; fortnox_nonce_at = now }) w
      (authorize_with cfg nonce mode)

-- `connectHandler`
unfoldable pub connect_handler :
    Connector → Faults → Instant → Option Session → Text → World → Response × World
connect_handler c faults now none query w = (refused not_authenticated, w)
connect_handler c faults now (some s) query w =
    let mode : String = mode_or s.mode (mode_of query) in
    start faults now s mode (prepare c s mode) w

-- What a callback that is accepted binds.
pub record Grant : Type 0 where
  pub mode : String
  pub token : OauthToken
  pub company : Company

-- The checks of `callbackHandler` before it writes anything, in their order.
unfoldable pub check_callback : Connector → Instant → Session → Text → Text → Result Refusal Grant
check_callback c now s code state = do
  fail_if (is_empty_text code) missing_code
  parts ← some_or_fail invalid_state (parse_oauth_state state)
  fail_if (not (oauth_nonce_valid s parts.0 now)) other_session
  mode ← some_or_fail invalid_mode (mode_of parts.1)
  cfg ← resolve_for c s mode
  token ← or_fail exchange_failed (c.exchange_code cfg code)
  company ← or_fail company_unknown (c.discover_company cfg token.access_token)
  fail_if (is_empty_text (company_key company.org_number)) no_org_number
  fail_if (not (company_allowed c.fold cfg company.name))
      (company_not_allowed company.name mode cfg.allowed_companies)
  ok (record { mode = mode; token = token; company = company })

abbrev pub tenant_of : Session → Grant → Text
tenant_of s g = tenant_key s.owner g.mode (company_key g.company.org_number)

-- A tenant row of this key under another name. A read that fails is taken for no row.
abbrev pub other_company : Option Tenant → String → Option String
other_company none name = none
other_company (some t) name = if str_eq t.name name then none else some t.name

abbrev pub conflict_of : Connector → Faults → Session → Grant → World → Option String
conflict_of c faults s g w =
    if not c.has_tenant_repo
    then none
    else if faults.get_fails
    then none
    else other_company (get_tenant (tenant_of s g) w.tenants) g.company.name

-- The session after a callback: its nonce is used up, and its mode and company are the new ones.
abbrev pub session_after : Session → Grant → Session
session_after s g = record s {
  fortnox_nonce = [];
  fortnox_nonce_at = pos 0;
  mode = g.mode;
  company = company_key g.company.org_number;
}

abbrev pub keep_token : Faults → Session → Grant → World → Response × World
keep_token faults s g w =
    if faults.save_fails
    then (refused token_save_failed, w)
    else set_cookie faults (session_after s g)
        (record w { tokens = save_token (tenant_of s g) g.token w.tokens }) (connected g.mode)

abbrev pub keep_tenant : Connector → Faults → Session → Grant → World → Response × World
keep_tenant c faults s g w =
    let row : Tenant = record { id = tenant_of s g; name = g.company.name } in
    if not c.has_tenant_repo
    then keep_token faults s g w
    else if faults.upsert_fails
    then (refused tenant_setup_failed, w)
    else keep_token faults s g (record w { tenants = upsert_tenant c.precedes row w.tenants })

abbrev pub unless_conflict :
    Option String → Connector → Faults → Session → Grant → World → Response × World
unless_conflict none c faults s g w = keep_tenant c faults s g w
unless_conflict (some existing) c faults s g w =
    (refused (company_conflict existing (company_key g.company.org_number) g.company.name), w)

abbrev pub keep_grant :
    Connector → Faults → Session → Result Refusal Grant → World → Response × World
keep_grant c faults s (err r) w = (refused r, w)
keep_grant c faults s (ok g) w = unless_conflict (conflict_of c faults s g w) c faults s g w

-- `callbackHandler`
unfoldable pub callback_handler :
    Connector → Faults → Instant → Option Session → Text → Text → World → Response × World
callback_handler c faults now none code state w = (refused not_authenticated, w)
callback_handler c faults now (some s) code state w =
    keep_grant c faults s (check_callback c now s code state) w
