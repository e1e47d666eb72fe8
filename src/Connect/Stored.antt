-- ===== src/Connect/Stored.antt =====
-- A callback that is answered with success leaves a session that finds the token it stored.
use cobalt_dingo.Prelude.{
  ◌≡◌, refl, ap, ap₂, ◌∙◌, Bool, true, false, not, Option, none, some, List, [], ◌∷◌, String,
  if◌then◌else◌, Result, ok, err, fail_if, Bool-cases, Option-cases, Result-cases, >>=-eq-ok,
  ok-injective, some-injective, subst, arith, inl, inr,
}
use cobalt_dingo.Prelude.Text.{
  Text, is_empty_text, trim_space, trim_left, trim_right, same_text, same_text→eq, same_text_refl,
}
use cobalt_dingo.Dates.{Instant, codes}
use cobalt_dingo.Config.{Fortnox, is_valid, company_allowed, mode_sandbox, mode_production}
use cobalt_dingo.Tokens.{OauthToken}
use cobalt_dingo.Auth.{Session, oauth_nonce_valid, parse_oauth_state}
use cobalt_dingo.Auth.Keys.{company_key, tenant_key, tenant_id}
use cobalt_dingo.Auth.Distinct.{company_key-company_key}
use cobalt_dingo.Connect.{
  Connector, World, Faults, mode_of, save_token, resolve_for, connected, find_token,
}
use cobalt_dingo.Connect.Callback.{
  Grant, check_callback, conflict_of, keep_token, keep_tenant, session_after, tenant_of,
  callback_handler, some_or_fail, or_fail,
}

-- What an accepted callback showed.
pub record IsGranted (c : Connector) (now : Instant) (s : Session) (code state : Text) (g : Grant)
    : Type 0 where
  pub has_code : is_empty_text code ≡ false
  pub parts : Text × Text
  pub parsed : parse_oauth_state state ≡ some parts
  pub own_nonce : oauth_nonce_valid s parts.0 now ≡ true
  pub mode_named : mode_of parts.1 ≡ some g.mode
  pub cfg : Fortnox
  pub resolved : resolve_for c s g.mode ≡ ok cfg
  pub exchanged : c.exchange_code cfg code ≡ ok g.token
  pub discovered : c.discover_company cfg g.token.access_token ≡ ok g.company
  pub has_number : is_empty_text (company_key g.company.org_number) ≡ false
  pub allowed : company_allowed c.fold cfg g.company.name ≡ true

fail_if-ok : {E : Type 0} (b : Bool) (e : E) (u : Unit {0}) → fail_if b e ≡ ok u → b ≡ false
fail_if-ok true e u h = cc
fail_if-ok false e u h = refl

negated_false : (b : Bool) → not b ≡ false → b ≡ true
negated_false true h = refl
negated_false false h = cc

some_or_fail-ok :
    {A B : Type 0} (e : B) (o : Option A) (a : A) → some_or_fail e o ≡ ok a → o ≡ some a
some_or_fail-ok e none a h = cc
some_or_fail-ok e (some b) a h = ap some (ok-injective b a h)

or_fail-ok : {E A B : Type 0} (e : B) (r : Result E A) (a : A) → or_fail e r ≡ ok a → r ≡ ok a
or_fail-ok e (err x) a h = cc
or_fail-ok e (ok b) a h = ap ok (ok-injective b a h)

pub check_callback-IsGranted :
    (c : Connector) (now : Instant) (s : Session) (code state : Text) (g : Grant)
    → check_callback c now s code state ≡ ok g
    → IsGranted c now s code state g
unfolding check_callback
check_callback-IsGranted c now s code state g h =
    let (u, has_code, h1) = >>=-eq-ok (fail_if (is_empty_text code) _) _ h in
    let (parts, parsed, h2) = >>=-eq-ok (some_or_fail _ (parse_oauth_state state)) _ h1 in
    let (u1, nonce, h3) = >>=-eq-ok (fail_if (not (oauth_nonce_valid s parts.0 now)) _) _ h2 in
    let (mode, named, h4) = >>=-eq-ok (some_or_fail _ (mode_of parts.1)) _ h3 in
    let (cfg, resolved, h5) = >>=-eq-ok (resolve_for c s mode) _ h4 in
    let (token, exchanged, h6) = >>=-eq-ok (or_fail _ (c.exchange_code cfg code)) _ h5 in
    let (company, found, h7) =
      >>=-eq-ok (or_fail _ (c.discover_company cfg token.access_token)) _ h6 in
    let (u2, number, h8) =
      >>=-eq-ok (fail_if (is_empty_text (company_key company.org_number)) _) _ h7 in
    let (u3, allowed, h9) =
      >>=-eq-ok (fail_if (not (company_allowed c.fold cfg company.name)) _) _ h8 in
    let made : Grant = record { mode = mode; token = token; company = company } in
    let same : made ≡ g = ok-injective made g h9 in
    subst (IsGranted c now s code state) same record {
      has_code = fail_if-ok _ _ u has_code;
      parts = parts;
      parsed = some_or_fail-ok _ _ parts parsed;
      own_nonce = negated_false _ (fail_if-ok _ _ u1 nonce);
      mode_named = some_or_fail-ok _ _ mode named;
      cfg = cfg;
      resolved = resolved;
      exchanged = or_fail-ok _ _ token exchanged;
      discovered = or_fail-ok _ _ company found;
      has_number = fail_if-ok _ _ u2 number;
      allowed = negated_false _ (fail_if-ok _ _ u3 allowed);
    }

-- What a request that ends with success left behind.
pub record IsKept (s : Session) (g : Grant) (mode : String) (w w' : World) : Type 0 where
  pub named : mode ≡ g.mode
  pub tokens : w'.tokens ≡ save_token (tenant_of s g) g.token w.tokens
  pub cookie : w'.cookie ≡ some (session_after s g)

keep_token-IsKept :
    (faults : Faults) (s : Session) (g : Grant) (w w' : World) (mode : String)
    → keep_token faults s g w ≡ (connected mode, w')
    → IsKept s g mode w w'
keep_token-IsKept faults s g w w' mode h = ground arith

keep_tenant-IsKept :
    (c : Connector) (faults : Faults) (s : Session) (g : Grant) (w w' : World) (mode : String)
    → keep_tenant c faults s g w ≡ (connected mode, w')
    → IsKept s g mode w w'
keep_tenant-IsKept c faults s g w w' mode h = ground (arith, keep_token-IsKept faults s g w w' mode)

callback_handler-IsKept :
    (c : Connector) (faults : Faults) (now : Instant) (s : Session) (code state : Text)
    (w w' : World) (mode : String)
    → callback_handler c faults now (some s) code state w ≡ (connected mode, w')
    → (g : Grant) × (check_callback c now s code state ≡ ok g) × IsKept s g mode w w'
unfolding callback_handler
callback_handler-IsKept c faults now s code state w w' mode h =
    elim (Result-cases (check_callback c now s code state)) [
      | inl (r, e) ↦ let bad = rw e at h in absurd (ground arith)
      | inr (g, e) ↦
          let kept = rw e at h in
          elim (Option-cases (conflict_of c faults s g w)) [
            | inl none_held ↦
                (g, e, keep_tenant-IsKept c faults s g w w' mode (rw none_held at kept))
            | inr (name, held) ↦ let bad = rw held at kept in absurd (ground arith)
          ]
    ]

find_token-save_token :
    (key : Text) (tok : OauthToken) (rows : List (Text × OauthToken))
    → find_token key (save_token key tok rows) ≡ some tok
unfolding find_token save_token
find_token-save_token key tok [] = rw (same_text_refl key) (refl)
find_token-save_token key tok ((k, t) ∷ rows) = elim (Bool-cases (same_text k key)) [
  | inl e ↦ rw (e, same_text_refl key) (refl)
  | inr e ↦ rw (e, e) (find_token-save_token key tok rows)
]

find_token-save_other :
    (key other : Text) (tok : OauthToken) (rows : List (Text × OauthToken))
    → same_text key other ≡ false
    → find_token other (save_token key tok rows) ≡ find_token other rows
unfolding find_token save_token
find_token-save_other key other tok [] ne = rw ne (refl)
find_token-save_other key other tok ((k, t) ∷ rows) ne = elim (Bool-cases (same_text k key)) [
  | inl e ↦ rw (e, same_text→eq k key e, ne) (refl)
  | inr e ↦ rw e (
      ap (λ r. if same_text k other then some t else r)
        (find_token-save_other key other tok rows ne))
]

mode_of-valid : (m : Text) (mode : String) → mode_of m ≡ some mode → is_valid mode ≡ true
unfolding is_valid
mode_of-valid m mode h = elim (Bool-cases (same_text m (codes mode_sandbox))) [
  | inl e ↦ rw (← some-injective mode_sandbox mode (rw e at h)) (refl)
  | inr e ↦ elim (Bool-cases (same_text m (codes mode_production))) [
    | inl f ↦ rw (← some-injective mode_production mode (rw (e, f) at h)) (refl)
    | inr f ↦ let bad = rw (e, f) at h in cc
  ]
]

pub tenant_id_of :
    (s : Session)
    → is_empty_text (trim_space s.owner) ≡ false
    → is_valid s.mode ≡ true
    → is_empty_text (company_key s.company) ≡ false
    → tenant_id s ≡ ok (tenant_key (trim_space s.owner) s.mode (company_key s.company))
unfolding tenant_id
tenant_id_of s named known chosen = rw (named, known, chosen) (refl)

no_nonce :
    (s : Session) (presented : Text) (now : Instant)
    → s.fortnox_nonce ≡ []
    → oauth_nonce_valid s presented now ≡ false
unfolding oauth_nonce_valid trim_space trim_left trim_right
no_nonce s presented now h = rw h (refl)

-- The state that a connected company leaves: a session whose key finds the token, the tokens of
-- all other keys as they were, and no nonce that a further callback could present.
pub record IsConnected (g : Grant) (w w' : World) : Type 0 where
  pub after : Session
  pub key : Text
  pub cookie : w'.cookie ≡ some after
  pub derived : tenant_id after ≡ ok key
  pub stored : find_token key w'.tokens ≡ some g.token
  pub others :
      (other : Text)
      → same_text key other ≡ false
      → find_token other w'.tokens ≡ find_token other w.tokens
  pub used_up :
      (presented : Text) (later : Instant) → oauth_nonce_valid after presented later ≡ false

IsKept-IsConnected :
    (s : Session) (g : Grant) (mode : String) (w w' : World)
    → is_empty_text (trim_space s.owner) ≡ false
    → trim_space s.owner ≡ s.owner
    → is_valid g.mode ≡ true
    → is_empty_text (company_key g.company.org_number) ≡ false
    → IsKept s g mode w w'
    → IsConnected g w w'
IsKept-IsConnected s g mode w w' named trimmed known number kept =
    let number_twice = company_key-company_key g.company.org_number in
    record {
      after = session_after s g;
      key = tenant_of s g;
      cookie = kept.cookie;
      derived =
          tenant_id_of (session_after s g) named known (ap is_empty_text number_twice ∙ number)
          ∙ ap₂ (λ (o k : Text). ok (tenant_key o g.mode k)) trimmed number_twice;
      stored =
          ap (find_token (tenant_of s g)) kept.tokens ∙ find_token-save_token _ g.token w.tokens;
      others = λ other ne.
          ap (find_token other) kept.tokens ∙ find_token-save_other _ other g.token w.tokens ne;
      used_up = λ presented later. no_nonce (session_after s g) presented later refl;
    }

-- If a callback is answered with "connected", the session's owner not being empty nor having outer
-- spaces, then it had passed every check: its nonce was the one of this session, its mode a known
-- one, the company allowed and with digits in its number. The cookie now holds a session whose tenant
-- key finds the token that Fortnox gave; no other key's token changed; and the nonce is used up, so
-- that no later callback is accepted under it.
pub callback_handler-IsConnected :
    (c : Connector) (faults : Faults) (now : Instant) (s : Session) (code state : Text)
    (w w' : World) (mode : String)
    → is_empty_text (trim_space s.owner) ≡ false
    → trim_space s.owner ≡ s.owner
    → callback_handler c faults now (some s) code state w ≡ (connected mode, w')
    → (g : Grant) × IsGranted c now s code state g × IsConnected g w w'
callback_handler-IsConnected c faults now s code state w w' mode named trimmed h =
    let (g, checked, kept) = callback_handler-IsKept c faults now s code state w w' mode h in
    let granted = check_callback-IsGranted c now s code state g checked in
    let known = mode_of-valid granted.parts.1 g.mode granted.mode_named in
    (g, granted, IsKept-IsConnected s g mode w w' named trimmed known granted.has_number kept)
