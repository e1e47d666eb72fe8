-- ===== src/Config/Modes.antt =====
-- The two loaders of a mode agree, and a mode that is named is offered or reported.
use Prim.Native.String.{◌++◌ as append_str}
use cobalt_dingo.Prelude.Counts.{weight, count}
use cobalt_dingo.Prelude.{
  ◌+◌, sym, length, ◌≡◌, ◌↔◌, ◌⊎◌, inl, inr, refl, ap, ◌∙◌, Bool, true, false, not, Option, none,
  some, [], ◌∷◌, String, str_eq, str_eq_iff, if◌then◌else◌, Result, ok, err, arith, Bool-cases,
}
use cobalt_dingo.Config.{
  Env, Fortnox, is_valid, mode_sandbox, mode_production, load, load_as, LoadError, credential,
  env_prefix, load_mode, load_all_modes, find_mode, Offer, absent, unusable, offered, collect,
  valid_account_type, offered_modes, read_mode,
}

abbrev pub found : Offer → Option Fortnox
found (offered f) = some f
found other = none

abbrev pub without_account_type : Option Fortnox → Option Fortnox
without_account_type none = none
without_account_type (some f) = some (record f { account_type = "" })

abbrev pub loaded : Result LoadError Fortnox → Option Fortnox
loaded (ok f) = some f
loaded (err e) = none

abbrev pub account_type_of : Env → String → String
account_type_of env m = env (append_str (env_prefix m) "ACCOUNT_TYPE")

find_mode-collect :
    (a b : Offer)
    → (find_mode mode_sandbox (collect a mode_sandbox (collect b mode_production ([], []))).0
        ≡ found a)
      × (find_mode mode_production (collect a mode_sandbox (collect b mode_production ([], []))).0
          ≡ found b)
unfolding find_mode
find_mode-collect absent absent = (refl, refl)
find_mode-collect absent (unusable r) = (refl, refl)
find_mode-collect absent (offered f) = (refl, refl)
find_mode-collect (unusable r) absent = (refl, refl)
find_mode-collect (unusable r) (unusable q) = (refl, refl)
find_mode-collect (unusable r) (offered f) = (refl, refl)
find_mode-collect (offered f) absent = (refl, refl)
find_mode-collect (offered f) (unusable q) = (refl, refl)
find_mode-collect (offered f) (offered g) = (refl, refl)

-- One mode, with the guards of the two loaders side by side.
load_mode-load_as :
    (env : Env) (m : String)
    → str_eq m "" ≡ false
    → is_valid m ≡ true
    → without_account_type (found (load_mode env m))
      ≡ (if valid_account_type (account_type_of env m) then loaded (load_as env m) else none)
unfolding load_mode
load_mode-load_as env m named valid = ground arith

-- Inside the guard of `LoadAllModes` a mode is one of the two that are known.
pub known_mode : (m : String) → is_valid m ≡ true → (m ≡ mode_sandbox) ⊎ (m ≡ mode_production)
unfolding is_valid
known_mode m h = elim (Bool-cases (str_eq m mode_sandbox)) [
  | inl e ↦ inl ((str_eq_iff m mode_sandbox).0 e)
  | inr e ↦ inr ((str_eq_iff m mode_production).0 (rw e at h))
]

find_mode-load_all_modes :
    (env : Env) (m : String)
    → is_valid m ≡ true
    → (find_mode m (load_all_modes env).0 ≡ found (load_mode env m)) × (str_eq m "" ≡ false)
unfolding load_all_modes
find_mode-load_all_modes env m h = elim (known_mode m h) [
  | inl e ↦
      rw e
        ((find_mode-collect (load_mode env mode_sandbox) (load_mode env mode_production)).0, refl)
  | inr e ↦
      rw e
        ((find_mode-collect (load_mode env mode_sandbox) (load_mode env mode_production)).1, refl)
]

-- Where FORTNOX_MODE names a known mode, the configuration that `LoadAllModes` offers for it is the
-- one that `Load` returns, but for the account type, which only `LoadAllModes` reads: it offers the
-- mode exactly when `Load` succeeds and the account type is empty or "service".
pub load-load_all_modes :
    (env : Env)
    → is_valid (env "FORTNOX_MODE") ≡ true
    → without_account_type (find_mode (env "FORTNOX_MODE") (load_all_modes env).0) ≡ (
        if valid_account_type (account_type_of env (env "FORTNOX_MODE"))
        then loaded (load env)
        else none)
unfolding load
load-load_all_modes env h =
    let (at, named) = find_mode-load_all_modes env (env "FORTNOX_MODE") h in
    ap without_account_type at ∙ load_mode-load_as env (env "FORTNOX_MODE") named h

-- What a loaded configuration promises of the environment.
pub record IsLoaded (env : Env) (f : Fortnox) : Type 0 where
  pub chosen : f.mode ≡ env "FORTNOX_MODE"
  pub known : is_valid f.mode ≡ true
  pub has_id : str_eq f.client_id "" ≡ false
  pub has_secret : str_eq f.client_secret "" ≡ false
  pub has_redirect : str_eq f.redirect_uri "" ≡ false
  pub live_host : f.base_url_override ≡ ""
  pub writes :
      (f.allows_writes ≡ true) ↔ (env (append_str (env_prefix f.mode) "ALLOW_WRITES") ≡ "true")

load_as-guards :
    (env : Env) (m : String) (f : Fortnox)
    → load_as env m ≡ ok f
    → (read_mode env m ≡ f)
      × (is_valid m ≡ true)
      × (str_eq f.client_id "" ≡ false)
      × (str_eq f.client_secret "" ≡ false)
      × (str_eq f.redirect_uri "" ≡ false)
load_as-guards env m f h = ground arith

load_as-IsLoaded :
    (env : Env) (m : String) (f : Fortnox)
    → env "FORTNOX_MODE" ≡ m
    → load_as env m ≡ ok f
    → IsLoaded env f
load_as-IsLoaded env m f at h =
    let (read, known, has_id, has_secret, has_redirect) = load_as-guards env m f h in
    let chosen : f.mode ≡ m = sym (ap (λ (r : Fortnox). r.mode) read) in
    let writes : str_eq (env (append_str (env_prefix m) "ALLOW_WRITES")) "true" ≡ f.allows_writes =
      ap (λ (r : Fortnox). r.allows_writes) read in
    record {
      chosen = chosen ∙ sym at;
      known = rw chosen known;
      has_id = has_id;
      has_secret = has_secret;
      has_redirect = has_redirect;
      live_host = sym (ap (λ (r : Fortnox). r.base_url_override) read);
      writes = rw (chosen, ← writes) (str_eq_iff _ "true");
    }

-- If `Load` succeeds, its configuration is for the mode that FORTNOX_MODE names, which is a known
-- one, its client id, client secret and redirect URI are not empty, it goes to the live host, and it
-- allows writes exactly when the ALLOW_WRITES variable of that mode is the text "true".
pub load-IsLoaded : (env : Env) (f : Fortnox) → load env ≡ ok f → IsLoaded env f
unfolding load
load-IsLoaded env f h = load_as-IsLoaded env (env "FORTNOX_MODE") f refl h

abbrev pub has_client_id : Env → String → Bool
has_client_id env m = not (str_eq (credential env (env_prefix m) "CLIENT_ID") "")

abbrev is_absent : Offer → Bool
is_absent absent = true
is_absent other = false

double_negation : (b : Bool) → not (not b) ≡ b
double_negation true = refl
double_negation false = refl

load_mode-absent :
    (env : Env) (m : String) → is_absent (load_mode env m) ≡ not (has_client_id env m)
unfolding load_mode
load_mode-absent env m = ground arith

load_mode-present :
    (env : Env) (m : String) → not (is_absent (load_mode env m)) ≡ has_client_id env m
load_mode-present env m = ap not (load_mode-absent env m) ∙ double_negation (has_client_id env m)

collect_accounted :
    (a b : Offer)
    → length (offered_modes (collect a mode_sandbox (collect b mode_production ([], []))).0)
        + length (collect a mode_sandbox (collect b mode_production ([], []))).1
      ≡ weight (not (is_absent a)) + weight (not (is_absent b))
unfolding offered_modes find_mode
collect_accounted absent absent = refl
collect_accounted absent (unusable r) = refl
collect_accounted absent (offered f) = refl
collect_accounted (unusable r) absent = refl
collect_accounted (unusable r) (unusable q) = refl
collect_accounted (unusable r) (offered f) = refl
collect_accounted (offered f) absent = refl
collect_accounted (offered f) (unusable q) = refl
collect_accounted (offered f) (offered g) = refl

-- `LoadAllModes` drops no mode silently: the modes that `OfferedModes` names and the reasons
-- together are as many as the modes for which a client id is set.
load_all_modes_accounted :
    (env : Env)
    → length (offered_modes (load_all_modes env).0) + length (load_all_modes env).1
      ≡ count (has_client_id env) (mode_sandbox ∷ mode_production ∷ [])
unfolding load_all_modes
load_all_modes_accounted env = omega (
  arith,
  collect_accounted (load_mode env mode_sandbox) (load_mode env mode_production),
  ap weight (load_mode-present env mode_sandbox),
  ap weight (load_mode-present env mode_production),
)
