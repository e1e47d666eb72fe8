-- ===== src/Tokens/Stored.antt =====
-- The token store of internal/adapter/postgres/token_store.go. The table `fortnox_tokens` is a
-- function of its primary key; the world beside it is that of the random source. `none` for the
-- cipher is the nil pointer. What a TIMESTAMPTZ column keeps of an instant, which is finer than a
-- microsecond, and the registered tenants are parameters. What else a database can fail with is not
-- modelled.
pub mod Winner
mod Tests
use cobalt_dingo.Prelude.{
  Bool, ◌||◌, Option, none, some, List, [], ◌∷◌, String, str_eq, if◌then◌else◌, Result, ok, err,
  ◌>>=◌, wrap_err,
}
use cobalt_dingo.Prelude.Actions.{Action, pure, raise, attempt, and_then}
use cobalt_dingo.Dates.{Instant}
use cobalt_dingo.Secrets.{Library, SecretError, seal_secret, open_secret, fingerprint}
use cobalt_dingo.Tokens.{OauthToken}

pub record TokenRow : Type 0 where
  pub access_token_sealed : String
  pub refresh_token_sealed : String
  pub refresh_token_fp : String
  pub expires_at : Instant

-- What the database brings: the instant that a TIMESTAMPTZ column gives back, and the tenants in
-- `tenants`, which the foreign key of `fortnox_tokens` names.
pub record Database : Type 0 where
  pub timestamptz : Instant → Instant
  pub registered : String → Bool

abbrev pub TokenRows : Type 0
TokenRows = String → Option TokenRow

-- `conflict` is `ErrTokenConflict`.
pub data TokenError : Type 0 where
  no_cipher no_old_refresh incomplete conflict : TokenError
  no_token unregistered : String → TokenError
  bad_access bad_refresh : String → SecretError → TokenError
  access_unsealed refresh_unsealed : SecretError → TokenError

-- A row in the place of whatever the tenant had.
abbrev pub put : String → Option TokenRow → TokenRows → TokenRows
put tenant row rows t = if str_eq tenant t then row else rows t

-- `AtomicRefreshToken`: what the tenant has is replaced if its fingerprint is the one given.
abbrev pub replace : String → String → TokenRow → Option TokenRow → TokenRows → Option TokenRows
replace tenant fp row none rows = none
replace tenant fp row (some old) rows =
    if str_eq fp old.refresh_token_fp then some (put tenant (some row) rows) else none

-- `Delete`
abbrev pub delete : String → TokenRows → TokenRows
delete tenant rows = put tenant none rows

-- The rows, beside the world.
abbrev pub Store : Type 0 → Type 0
Store W = TokenRows × W

abbrev pub replaced :
    {W : Type 0} → TokenRows → Option TokenRows → W → Result TokenError (Unit {0}) × Store W
replaced rows none w = (err conflict, (rows, w))
replaced rows (some rows1) w = (ok tt, (rows1, w))

module _ {B W : Type 0} where
  abbrev pub read_row : Library B W → String → Option TokenRow → Result TokenError OauthToken
  read_row lib tenant none = err (no_token tenant)
  read_row lib tenant (some row) =
      wrap_err (bad_access tenant) (open_secret lib row.access_token_sealed) >>= λ access.
      wrap_err (bad_refresh tenant) (open_secret lib row.refresh_token_sealed) >>= λ refresh.
      ok (record { access_token = access; refresh_token = refresh; expires_at = row.expires_at })

  -- `Load`
  abbrev pub load : Option (Library B W) → String → TokenRows → Result TokenError OauthToken
  load none tenant rows = err no_cipher
  load (some lib) tenant rows = read_row lib tenant (rows tenant)

  -- `seal`
  unfoldable pub seal_token : Library B W → OauthToken → Action W TokenError (String × String)
  seal_token lib token w =
      let sealed : Result TokenError (String × String) × W =
        and_then (attempt (seal_secret lib token.access_token))
          (λ r. elim r [
            | err e ↦ raise (access_unsealed e)
            | ok access ↦ and_then (attempt (seal_secret lib token.refresh_token)) (λ s. elim s [
              | err e ↦ raise (refresh_unsealed e)
              | ok refresh ↦ pure (access, refresh)
            ])
          ])
          w in
      if str_eq token.access_token "" || str_eq token.refresh_token ""
      then (err incomplete, w)
      else sealed

  abbrev pub row_of : Database → Library B W → OauthToken → String × String → TokenRow
  row_of db lib token (access, refresh) = record {
    access_token_sealed = access;
    refresh_token_sealed = refresh;
    refresh_token_fp = fingerprint lib token.refresh_token;
    expires_at = db.timestamptz token.expires_at;
  }

  -- `UpsertToken`
  abbrev pub upsert_sealed :
      Database
      → Library B W
      → String
      → OauthToken
      → TokenRows
      → Result TokenError (String × String) × W
      → Result TokenError (Unit {0}) × Store W
  upsert_sealed db lib tenant token rows (err e, w) = (err e, (rows, w))
  upsert_sealed db lib tenant token rows (ok sealed, w) =
      if db.registered tenant
      then (ok tt, (put tenant (some (row_of db lib token sealed)) rows, w))
      else (err (unregistered tenant), (rows, w))

  -- `Save`
  unfoldable pub save :
      Database → Option (Library B W) → String → OauthToken → Action (Store W) TokenError (Unit {0})
  save db none tenant token s = (err no_cipher, s)
  save db (some lib) tenant token (rows, w) =
      upsert_sealed db lib tenant token rows (seal_token lib token w)

  abbrev pub replace_sealed :
      Database
      → Library B W
      → String
      → String
      → OauthToken
      → TokenRows
      → Result TokenError (String × String) × W
      → Result TokenError (Unit {0}) × Store W
  replace_sealed db lib tenant fp token rows (err e, w) = (err e, (rows, w))
  replace_sealed db lib tenant fp token rows (ok sealed, w) =
      replaced rows (replace tenant fp (row_of db lib token sealed) (rows tenant) rows) w

  -- `AtomicRefresh`
  unfoldable pub atomic_refresh :
      Database
      → Option (Library B W)
      → String
      → OauthToken
      → OauthToken
      → Action (Store W) TokenError (Unit {0})
  atomic_refresh db none tenant old new_token s = (err no_cipher, s)
  atomic_refresh db (some lib) tenant old new_token (rows, w) =
      let fp = fingerprint lib old.refresh_token in
      let done = replace_sealed db lib tenant fp new_token rows (seal_token lib new_token w) in
      if str_eq fp "" then (err no_old_refresh, (rows, w)) else done
