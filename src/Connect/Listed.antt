-- ===== src/Connect/Listed.antt =====
-- What the pages list is what a session can work with.
use cobalt_dingo.Prelude.{
  ◌≡◌, refl, sym, ap, ◌∙◌, Bool, true, false, none, some, List, [], ◌∷◌, String, if◌then◌else◌, ok,
  Bool-cases, Option-cases, arith, inl, inr, select, ap₂, map, length, not_true, ◌&&◌, ◌<◌,
}
use cobalt_dingo.Prelude.Text.{
  length-after_prefix, Text, trim_space, is_empty_text, same_text, same_text→eq, starts_with,
  after_prefix,
}
use cobalt_dingo.Tokens.{OauthToken}
use cobalt_dingo.Tenants.{Tenant, LikeLaws}
use cobalt_dingo.Tenants.Prefix.{list_by_prefix-starts_with}
use cobalt_dingo.Config.{is_valid}
use cobalt_dingo.Auth.{Session}
use cobalt_dingo.Auth.Keys.{company_key, tenant_key, tenant_id}
use cobalt_dingo.Auth.Distinct.{company_key-company_key}
use cobalt_dingo.Connect.{
  Connector, World, Faults, selected, disconnected, find_token, delete_token, loads, mode_of,
}
use cobalt_dingo.Connect.Pages.{
  CompanyChoice, prefix_of, choices, connected_companies, rows_under, any_loads,
  any_company_connected, select_company, select_company_handler, disconnect_handler, disconnect_in,
  trim_prefix, chosen_or,
}
use cobalt_dingo.Connect.Stored.{tenant_id_of}

-- A session after a choice, and the token that it works with.
pub record IsSelected (faults : Faults) (w w' : World) : Type 0 where
  pub after : Session
  pub key : Text
  pub cookie : w'.cookie ≡ some after
  pub derived : tenant_id after ≡ ok key
  pub loadable : loads faults w' key ≡ true
  pub tokens : w'.tokens ≡ w.tokens

select_company-selected :
    (c : Connector) (faults : Faults) (s : Session) (company : Text) (w w' : World)
    → select_company c faults s company w ≡ (selected, w')
    → (is_empty_text company ≡ false)
      × (loads faults w (tenant_key s.owner s.mode company) ≡ true)
      × (w' ≡ record w { cookie = some (record s { company = company }) })
select_company-selected c faults s company w w' h = ground arith

-- If the choice of a company is answered with "selected", the owner of the session having no outer
-- spaces and its mode being known, the cookie holds a session whose tenant key loads a token, and no
-- token changed.
pub select_company_handler-IsSelected :
    (c : Connector) (faults : Faults) (s : Session) (company : Text) (w w' : World)
    → is_empty_text (trim_space s.owner) ≡ false
    → trim_space s.owner ≡ s.owner
    → is_valid s.mode ≡ true
    → select_company_handler c faults (some s) company w ≡ (selected, w')
    → IsSelected faults w w'
unfolding select_company_handler
select_company_handler-IsSelected c faults s company w w' named trimmed known h =
    let (chosen, loadable, left) =
      select_company-selected c faults s (company_key company) w w' h in
    let after : Session = record s { company = company_key company } in
    let twice = company_key-company_key company in
    record {
      after = after;
      key = tenant_key s.owner s.mode (company_key company);
      cookie = ap (λ (x : World). x.cookie) left;
      derived =
          tenant_id_of after named known (ap is_empty_text twice ∙ chosen)
          ∙ ap₂ (λ (o k : Text). ok (tenant_key o s.mode k)) trimmed twice;
      loadable = rw left loadable;
      tokens = ap (λ (x : World). x.tokens) left;
    }

abbrev pub choice_of : Session → Tenant → CompanyChoice
choice_of s t =
    let key : Text = trim_prefix (prefix_of s.owner s.mode) t.id in
    record {
      name = t.name;
      org_number = key;
      active = same_text key (company_key s.company);
      mode = s.mode;
    }

-- A tenant of the owner and mode of the session, for which there is a token.
abbrev pub is_usable : Faults → Session → World → Tenant → Bool
is_usable faults s w t = starts_with (prefix_of s.owner s.mode) t.id && loads faults w t.id

length-prefix_of : (owner : Text) (mode : String) → 0 < length (prefix_of owner mode)
length-prefix_of [] mode = omega arith
length-prefix_of (x ∷ owner) mode = omega arith

-- An id under a prefix is not what is left of it.
trimmed_differs :
    (prefix id : Text)
    → 0 < length prefix
    → starts_with prefix id ≡ true
    → same_text (trim_prefix prefix id) id ≡ false
trimmed_differs prefix id long h = elim (Option-cases (after_prefix prefix id)) [
  | inl e ↦ let bad = rw (e, starts_with) at h in cc
  | inr (rest, e) ↦ rw e (
      not_true _ (λ same.
        let eq = ap length (same_text→eq rest id same) in
        let cut = length-after_prefix prefix id rest e in absurd (omega arith)))
]

choices-select :
    (c : Connector) (faults : Faults) (s : Session) (w : World) (rows : List Tenant)
    → choices c faults s
        (prefix_of s.owner s.mode)
        w
        (select (λ (t : Tenant). starts_with (prefix_of s.owner s.mode) t.id) rows)
      ≡ map (choice_of s) (select (is_usable faults s w) rows)
unfolding choices
choices-select c faults s w [] = refl
choices-select c faults s w (t ∷ rows) =
    let ih = choices-select c faults s w rows in
    elim (Bool-cases (starts_with (prefix_of s.owner s.mode) t.id)) [
      | inr e ↦ rw e ih
      | inl e ↦
          let differs =
            trimmed_differs (prefix_of s.owner s.mode) t.id (length-prefix_of s.owner s.mode) e in
          elim (Bool-cases (loads faults w t.id)) [
            | inl l ↦ rw (e, l, differs) (ap (◌∷◌ (choice_of s t)) ih)
            | inr l ↦ rw (e, l, differs) ih
          ]
    ]

rows_under-select :
    (c : Connector) (faults : Faults) (prefix : Text) (w : World)
    → LikeLaws c.like
    → c.has_tenant_repo ≡ true
    → faults.list_fails ≡ false
    → rows_under c faults prefix w ≡ select (λ (t : Tenant). starts_with prefix t.id) w.tenants
rows_under-select c faults prefix w laws repo reads =
    rw (repo, reads) (list_by_prefix-starts_with c.like laws prefix w.tenants)

-- The companies that are listed are the tenants whose id starts with the owner and mode of the
-- session and for which a token loads, each once and in their order, if there is a registry that can
-- be read and `LIKE` keeps its laws.
pub connected_companies-select :
    (c : Connector) (faults : Faults) (s : Session) (w : World)
    → LikeLaws c.like
    → c.has_tenant_repo ≡ true
    → faults.list_fails ≡ false
    → connected_companies c faults s w ≡ map (choice_of s) (select (is_usable faults s w) w.tenants)
unfolding connected_companies
connected_companies-select c faults s w laws repo reads =
    let prefix : Text = prefix_of s.owner s.mode in
    let rows = rows_under-select c faults prefix w laws repo reads in
    ap (choices c faults s prefix w) rows ∙ choices-select c faults s w w.tenants

abbrev pub some_listed : List CompanyChoice → Bool
some_listed [] = false
some_listed (x ∷ xs) = true

any_loads-select :
    (c : Connector) (faults : Faults) (s : Session) (w : World) (rows : List Tenant)
    → any_loads c faults w
        (select (λ (t : Tenant). starts_with (prefix_of s.owner s.mode) t.id) rows)
      ≡ some_listed (map (choice_of s) (select (is_usable faults s w) rows))
unfolding any_loads
any_loads-select c faults s w [] = refl
any_loads-select c faults s w (t ∷ rows) =
    let ih = any_loads-select c faults s w rows in
    elim (Bool-cases (starts_with (prefix_of s.owner s.mode) t.id)) [
      | inr e ↦ rw e ih
      | inl e ↦ elim (Bool-cases (loads faults w t.id)) [
        | inl l ↦ rw (e, l) (refl)
        | inr l ↦ rw (e, l) ih
      ]
    ]

-- The status of the mode and the list of companies agree: a mode is shown as connected for an owner
-- exactly when the list of a session of that owner in that mode is not empty. This holds too where
-- the registry is missing or cannot be read, if `LIKE` keeps its laws.
pub any_company_connected-connected_companies :
    (c : Connector) (faults : Faults) (s : Session) (w : World)
    → LikeLaws c.like
    → any_company_connected c faults s.owner s.mode w
      ≡ some_listed (connected_companies c faults s w)
unfolding any_company_connected connected_companies any_loads choices
any_company_connected-connected_companies c faults s w laws = elim (Bool-cases c.has_tenant_repo) [
  | inr no_repo ↦ rw no_repo (refl)
  | inl repo ↦ elim (Bool-cases faults.list_fails) [
    | inl fails ↦ rw (repo, fails) (refl)
    | inr reads ↦
        let prefix : Text = prefix_of s.owner s.mode in
        let rows = rows_under-select c faults prefix w laws repo reads in
        ap (any_loads c faults w) rows
        ∙ any_loads-select c faults s w w.tenants
        ∙ sym (ap some_listed (choices-select c faults s w w.tenants))
        ∙ sym (ap (λ (ts : List Tenant). some_listed (choices c faults s prefix w ts)) rows)
  ]
]

find_token-delete_token :
    (key : Text) (rows : List (Text × OauthToken)) → find_token key (delete_token key rows) ≡ none
unfolding find_token delete_token
find_token-delete_token key [] = refl
find_token-delete_token key ((k, t) ∷ rows) = elim (Bool-cases (same_text k key)) [
  | inl e ↦ rw e (find_token-delete_token key rows)
  | inr e ↦ rw (e, e) (find_token-delete_token key rows)
]

find_token-delete_other :
    (key other : Text) (rows : List (Text × OauthToken))
    → same_text key other ≡ false
    → find_token other (delete_token key rows) ≡ find_token other rows
unfolding find_token delete_token
find_token-delete_other key other [] ne = refl
find_token-delete_other key other ((k, t) ∷ rows) ne = elim (Bool-cases (same_text k key)) [
  | inl e ↦ rw (e, same_text→eq k key e, ne) (find_token-delete_other key other rows ne)
  | inr e ↦ rw e (
      ap (λ r. if same_text k other then some t else r) (find_token-delete_other key other rows ne))
]

disconnect_in-disconnected :
    (c : Connector) (faults : Faults) (s : Session) (company : Text) (mode m : String)
    (w w' : World)
    → disconnect_in c faults s (some mode) company w ≡ (disconnected m, w')
    → (mode ≡ m)
      × (w' ≡ record w {
        tokens =
            delete_token
              (tenant_key s.owner mode (chosen_or (company_key company) (company_key s.company)))
              w.tokens;
      })
disconnect_in-disconnected c faults s company mode m w w' h = ground arith

-- What a disconnection leaves: no token under the key, and all else as it was.
pub record IsDisconnected (key : Text) (w w' : World) : Type 0 where
  pub gone : find_token key w'.tokens ≡ none
  pub others :
      (other : Text)
      → same_text key other ≡ false
      → find_token other w'.tokens ≡ find_token other w.tokens
  pub tenants : w'.tenants ≡ w.tenants
  pub cookie : w'.cookie ≡ w.cookie

-- The key of a disconnection: the company that was asked for, or else the session's.
abbrev pub disconnected_key : Session → String → Text → Text
disconnected_key s m company =
    tenant_key s.owner m (chosen_or (company_key company) (company_key s.company))

-- If a disconnection is answered with success, the token under the key of the owner, the mode and
-- the company that was asked for, or else of the session's company, is gone; the tokens of all other
-- keys, the registry and the cookie are as they were. The mode is the one that was asked for.
disconnect_handler-IsDisconnected :
    (c : Connector) (faults : Faults) (s : Session) (mode company : Text) (w w' : World)
    (m : String)
    → disconnect_handler c faults (some s) mode company w ≡ (disconnected m, w')
    → (mode_of mode ≡ some m) × IsDisconnected (disconnected_key s m company) w w'
unfolding disconnect_handler
disconnect_handler-IsDisconnected c faults s mode company w w' m h =
    elim (Option-cases (mode_of mode)) [
      | inl e ↦ let bad = rw (e, disconnect_in) at h in absurd (ground arith)
      | inr (n, e) ↦
          let (same, left) = disconnect_in-disconnected c faults s company n m w w' (rw e at h) in
          let key : Text = disconnected_key s n company in
          (
            e ∙ ap some same,
            rw (← same) record {
              gone = rw left (find_token-delete_token key w.tokens);
              others = λ other ne. rw left (find_token-delete_other key other w.tokens ne);
              tenants = ap (λ (x : World). x.tenants) left;
              cookie = ap (λ (x : World). x.cookie) left;
            },
          )
    ]
