-- ===== src/Tokens.antt =====
-- Tokens that outlast the work they are for: `Load` of
-- internal/adapter/fortnox/refreshing_token_store.go, for one tenant. The store inside it, the
-- token endpoint, the lock and the clock are interfaces of the source.
pub mod Stored
pub mod Served
mod Tests
use cobalt_dingo.Prelude.{
  Bool, true, false, not, ◌&&◌, Option, none, some, String, str_eq, if◌then◌else◌, Result, ok, err,
}
use cobalt_dingo.Prelude.Int.{ℤ, ◌+ℤ◌, ltb_ℤ}
use cobalt_dingo.Prelude.Actions.{Action, pure, raise, attempt, and_then}
use cobalt_dingo.Dates.{Instant}

pub record OauthToken : Type 0 where
  pub access_token : String
  pub refresh_token : String
  pub expires_at : Instant

-- The errors of `TokenStore`: `conflict` is `ErrTokenConflict`.
pub data StoreError : Type 0 where
  conflict : StoreError
  store_failed : String → StoreError

pub data LoadError : Type 0 where
  load_failed : StoreError → LoadError
  no_refresh_token : LoadError
  lock_failed : String → LoadError
  reread_failed : StoreError → LoadError
  refresh_failed : String → LoadError
  persist_failed : String → LoadError
  reload_failed : StoreError → LoadError

-- The two methods of `RefreshLock`, of which the second is what `Acquire` returns.
pub record Lock (W : Type 0) : Type 0 where
  pub acquire : Action W String (Unit {0})
  pub release : W → W

pub record Ports (W : Type 0) : Type 0 where
  pub load : Action W StoreError OauthToken
  pub atomic_refresh : OauthToken → OauthToken → Action W StoreError (Unit {0})
  pub refresh : String → Action W String OauthToken
  pub lock : Option (Lock W)
  pub now : W → Instant × W

module _ {W : Type 0} (ports : Ports W) (min_lifetime : ℤ) where
  open ports use {load, atomic_refresh, refresh, lock, now}

  -- The test of the token; the clock is read only if there is an access token.
  unfoldable pub outlasts : OauthToken → W → Bool × W
  outlasts tok w =
      let (at_time, w1) = now w in
      let lasts = ltb_ℤ (at_time +ℤ min_lifetime) tok.expires_at in
      if str_eq tok.access_token "" then (false, w) else (lasts, w1)

  -- After `AtomicRefresh`
  unfoldable pub persisted :
      OauthToken → Result StoreError (Unit {0}) → Action W LoadError OauthToken
  persisted new_token (ok u) = pure new_token
  persisted new_token (err (store_failed e)) = raise (persist_failed e)
  persisted new_token (err conflict) =
      and_then (attempt load) (λ r. elim r [ err e ↦ raise (reload_failed e) | ok tok ↦ pure tok ])

  -- The exchange of the refresh token and the write of what it gives.
  unfoldable pub exchange : OauthToken → Action W LoadError OauthToken
  exchange tok = and_then (attempt (refresh tok.refresh_token)) (λ r. elim r [
    | err e ↦ raise (refresh_failed e)
    | ok new_token ↦ and_then (attempt (atomic_refresh tok new_token)) (persisted new_token)
  ])

  -- A token that was read: itself if it lasts, else the given way on.
  unfoldable pub unless_lasting :
      (OauthToken → Action W LoadError OauthToken) → OauthToken → Action W LoadError OauthToken
  unless_lasting next tok w =
      let (lasts, w1) = outlasts tok w in
      let rest = next tok w1 in if lasts then (ok tok, w1) else rest

  -- What is done under the lock, up to its release.
  unfoldable pub under_lock : Action W LoadError OauthToken
  under_lock =
      and_then (attempt load)
        (λ r. elim r [ err e ↦ raise (reread_failed e) | ok fresh ↦ unless_lasting exchange fresh ])

  abbrev pub released : Lock W → Result LoadError OauthToken × W → Result LoadError OauthToken × W
  released l (r, w) = (r, l.release w)

  unfoldable pub locked : Lock W → Action W LoadError OauthToken
  locked l =
      and_then (attempt l.acquire)
        (λ r. elim r [ err e ↦ raise (lock_failed e) | ok u ↦ λ w. released l (under_lock w) ])

  unfoldable pub renew_with : Option (Lock W) → OauthToken → Action W LoadError OauthToken
  renew_with none tok = exchange tok
  renew_with (some l) tok = locked l

  unfoldable pub renew : OauthToken → Action W LoadError OauthToken
  renew tok w =
      let rest = renew_with lock tok w in
      if str_eq tok.refresh_token "" then (err no_refresh_token, w) else rest

  -- `Load`
  unfoldable pub load_token : Action W LoadError OauthToken
  load_token =
      and_then (attempt load)
        (λ r. elim r [ err e ↦ raise (load_failed e) | ok tok ↦ unless_lasting renew tok ])
