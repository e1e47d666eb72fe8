-- ===== src/Connect/Pages.antt =====
-- The other handlers of internal/ui/fortnox_connect.go: the listing of the companies, their choice,
-- the status of the modes and the disconnection.
use Prim.Native.String.{◌++◌ as append_str}
use cobalt_dingo.Prelude.{
  Bool, false, not, ◌||◌, Option, none, some, List, [], ◌∷◌, ◌++◌, String, if◌then◌else◌,
}
use cobalt_dingo.Prelude.Text.{Text, is_empty_text, same_text, after_prefix}
use cobalt_dingo.Dates.{codes}
use cobalt_dingo.Config.{mode_sandbox, mode_production, find_mode, label}
use cobalt_dingo.Tenants.{Tenant, list_by_prefix}
use cobalt_dingo.Auth.{Session}
use cobalt_dingo.Auth.Keys.{company_key, tenant_key}
use cobalt_dingo.Connect.{
  Connector, World, Faults, Response, mode_of, loads, is_some, delete_token, set_cookie, refused,
  disconnected, selected, not_authenticated, invalid_mode, no_config, no_company, disconnect_failed,
  no_sessions, not_connected,
}

-- `CompanyChoice`
pub record CompanyChoice : Type 0 where
  pub name : String
  pub org_number : Text
  pub active : Bool
  pub mode : String

-- `ModeStatus`
pub record ModeStatus : Type 0 where
  pub mode : String
  pub is_connected : Bool

-- `owner + ":" + string(mode) + ":"`
abbrev pub prefix_of : Text → String → Text
prefix_of owner mode = owner ++ b':' ∷ (codes mode ++ b':' ∷ [])

abbrev pub after_or_whole : Text → Option Text → Text
after_or_whole s none = s
after_or_whole s (some rest) = rest

-- `strings.TrimPrefix`
abbrev pub trim_prefix : Text → Text → Text
trim_prefix prefix s = after_or_whole s (after_prefix prefix s)

abbrev pub flash_of : String → String → Option String → String
flash_of before after none = ""
flash_of before after (some mode) = append_str before (append_str (label mode) after)

-- The message of `pageHandler`, from the parameters `connected` and `disconnected`.
unfoldable pub page_flash : Text → Text → String
page_flash connected_param disconnected_param =
    if not (is_empty_text connected_param)
    then flash_of "Successfully connected to " "." (mode_of connected_param)
    else if not (is_empty_text disconnected_param)
    then flash_of "Disconnected from " "." (mode_of disconnected_param)
    else ""

abbrev pub chosen_or : Text → Text → Text
chosen_or given active = if is_empty_text given then active else given

module _ (c : Connector) (faults : Faults) where
  -- The rows of `ListByPrefix`, none where it fails or there is no repository.
  abbrev pub rows_under : Text → World → List Tenant
  rows_under prefix w =
      if not c.has_tenant_repo
      then []
      else if faults.list_fails
      then []
      else list_by_prefix c.like prefix w.tenants

  unfoldable pub choices : Session → Text → World → List Tenant → List CompanyChoice
  choices s prefix w [] = []
  choices s prefix w (t ∷ rows) =
      let key : Text = trim_prefix prefix t.id in
      let choice : CompanyChoice = record {
        name = t.name;
        org_number = key;
        active = same_text key (company_key s.company);
        mode = s.mode;
      } in
      let rest = choices s prefix w rows in
      if same_text key t.id then rest else if not (loads faults w t.id) then rest else choice ∷ rest

  -- `connectedCompanies`
  unfoldable pub connected_companies : Session → World → List CompanyChoice
  connected_companies s w =
      let prefix : Text = prefix_of s.owner s.mode in choices s prefix w (rows_under prefix w)

  unfoldable pub any_loads : World → List Tenant → Bool
  any_loads w [] = false
  any_loads w (t ∷ rows) = loads faults w t.id || any_loads w rows

  -- `anyCompanyConnected`
  unfoldable pub any_company_connected : Text → String → World → Bool
  any_company_connected owner mode w = any_loads w (rows_under (prefix_of owner mode) w)

  abbrev pub statuses_of : Text → World → List String → List ModeStatus
  statuses_of owner w [] = []
  statuses_of owner w (mode ∷ modes) =
      let status : ModeStatus = record {
        mode = mode;
        is_connected = any_company_connected owner mode w;
      } in
      if is_some (find_mode mode c.configs)
      then status ∷ statuses_of owner w modes
      else statuses_of owner w modes

  -- `modeStatuses`
  unfoldable pub mode_statuses : Session → World → List ModeStatus
  mode_statuses s w = statuses_of s.owner w (mode_sandbox ∷ mode_production ∷ [])

  abbrev pub delete_company : Session → String → Text → World → Response × World
  delete_company s mode company w =
      if is_empty_text company
      then (refused no_company, w)
      else if faults.delete_fails
      then (refused disconnect_failed, w)
      else (
        disconnected mode,
        record w { tokens = delete_token (tenant_key s.owner mode company) w.tokens },
      )

  abbrev pub disconnect_in : Session → Option String → Text → World → Response × World
  disconnect_in s none company w = (refused invalid_mode, w)
  disconnect_in s (some mode) company w =
      if not (is_some (find_mode mode c.configs))
      then (refused (no_config mode), w)
      else delete_company s mode (chosen_or (company_key company) (company_key s.company)) w

  -- `disconnectHandler`
  unfoldable pub disconnect_handler : Option Session → Text → Text → World → Response × World
  disconnect_handler none mode company w = (refused not_authenticated, w)
  disconnect_handler (some s) mode company w = disconnect_in s (mode_of mode) company w

  abbrev pub select_company : Session → Text → World → Response × World
  select_company s company w =
      if not c.has_sessions
      then (refused no_sessions, w)
      else if is_empty_text company
      then (refused no_company, w)
      else if not (loads faults w (tenant_key s.owner s.mode company))
      then (refused not_connected, w)
      else set_cookie faults (record s { company = company }) w selected

  -- `selectCompanyHandler`
  unfoldable pub select_company_handler : Option Session → Text → World → Response × World
  select_company_handler none company w = (refused not_authenticated, w)
  select_company_handler (some s) company w = select_company s (company_key company) w
