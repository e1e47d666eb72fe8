-- ===== src/Integration.antt =====
-- Which Fortnox credentials a request uses: internal/integration/resolve.go. The store and the
-- cipher are interfaces of the source; what they answer is an argument.
mod Tests
use cobalt_dingo.Prelude.{
  ◌≡◌, ◌≢◌, refl, ap, Bool, true, false, ◌||◌, Option, none, some, String, str_eq, if◌then◌else◌,
  Result, ok, err, ◌⊎◌, inl, inr, Bool-cases, Option-cases, Result-cases, ok-injective, sym,
}

-- `config.Fortnox`, with the fields that are no credentials in one.
pub record Fortnox (S : Type 0) : Type 0 where
  pub client_id : String
  pub client_secret : String
  pub settings : S

-- The fields of `domain.Integration` that are read.
pub record Registered : Type 0 where
  pub client_id : String
  pub client_secret_sealed : String

-- The errors of `IntegrationStore.Get`: `no_integration` is `domain.ErrNoIntegration`.
pub data StoreError : Type 0 where
  no_integration : StoreError
  store_broken : String → StoreError

pub data ResolveError : Type 0 where
  lookup_failed : String → ResolveError
  incomplete no_cipher : ResolveError
  decrypt_failed : String → ResolveError

abbrev pub Cipher : Type 0
Cipher = String → Result String String

module _ {S : Type 0} where
  unfoldable pub unseal :
      Registered → Result String String → Fortnox S → Result ResolveError (Fortnox S)
  unseal rec (err e) app_level = err (decrypt_failed e)
  unseal rec (ok secret) app_level =
      ok (record app_level { client_id = rec.client_id; client_secret = secret })

  unfoldable pub with_cipher :
      Registered → Option Cipher → Fortnox S → Result ResolveError (Fortnox S)
  with_cipher rec none app_level = err no_cipher
  with_cipher rec (some open_sealed) app_level =
      unseal rec (open_sealed rec.client_secret_sealed) app_level

  unfoldable pub use_answer :
      Result StoreError Registered → Option Cipher → Fortnox S → Result ResolveError (Fortnox S)
  use_answer (err no_integration) cipher app_level = ok app_level
  use_answer (err (store_broken e)) cipher app_level = err (lookup_failed e)
  use_answer (ok rec) cipher app_level =
      if str_eq rec.client_id "" || str_eq rec.client_secret_sealed ""
      then err incomplete
      else with_cipher rec cipher app_level

  -- `Resolve`. The store is `none` where the source has a nil interface; else it is its answer for
  -- the owner and the mode.
  unfoldable pub resolve :
      Option (Result StoreError Registered)
      → Option Cipher
      → Fortnox S
      → Result ResolveError (Fortnox S)
  resolve none cipher app_level = ok app_level
  resolve (some answer) cipher app_level = use_answer answer cipher app_level

  unseal-registered :
      (rec : Registered) (r : Result String String) (app out : Fortnox S)
      → unseal rec r app ≡ ok out
      → (out.client_id ≡ rec.client_id) × (r ≡ ok out.client_secret) × (out.settings ≡ app.settings)
  unfolding unseal
  unseal-registered rec (err x) app out e = cc
  unseal-registered rec (ok secret) app out e =
      let made : Fortnox S = record app { client_id = rec.client_id; client_secret = secret } in
      let same : made ≡ out = ok-injective made out e in
      (
        ap (λ (x : Fortnox S). x.client_id) (sym same),
        ap (λ (x : Fortnox S). ok x.client_secret) same,
        ap (λ (x : Fortnox S). x.settings) (sym same),
      )

  with_cipher-registered :
      (rec : Registered) (cipher : Option Cipher) (app out : Fortnox S)
      → with_cipher rec cipher app ≡ ok out
      → (open_sealed : Cipher) × (cipher ≡ some open_sealed)
        × (open_sealed rec.client_secret_sealed ≡ ok out.client_secret)
        × (out.client_id ≡ rec.client_id)
        × (out.settings ≡ app.settings)
  unfolding with_cipher
  with_cipher-registered rec none app out e = cc
  with_cipher-registered rec (some open_sealed) app out e =
      let (name, secret, settings) =
        unseal-registered rec (open_sealed rec.client_secret_sealed) app out e in
      (open_sealed, refl, secret, name, settings)

  -- A registered owner never gets the credentials of the application. When the store holds a record
  -- and `Resolve` succeeds, the client id is that of the record, the secret is what the cipher made
  -- of the record's sealed one, and only the settings are those of the application.
  pub resolve-registered :
      (rec : Registered) (cipher : Option Cipher) (app out : Fortnox S)
      → resolve (some (ok rec)) cipher app ≡ ok out
      → (open_sealed : Cipher) × (cipher ≡ some open_sealed)
        × (open_sealed rec.client_secret_sealed ≡ ok out.client_secret)
        × (out.client_id ≡ rec.client_id)
        × (out.settings ≡ app.settings)
  unfolding resolve use_answer
  resolve-registered rec cipher app out e =
      elim (Bool-cases (str_eq rec.client_id "" || str_eq rec.client_secret_sealed "")) [
        | inl t ↦ let bad = rw t at e in cc
        | inr f ↦ with_cipher-registered rec cipher app out (rw f at e)
      ]
