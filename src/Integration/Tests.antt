-- ===== src/Integration/Tests.antt =====
-- An owner with a registered integration.
use cobalt_dingo.Prelude.{◌≡◌, refl, some, ok, ℕ}
use cobalt_dingo.Integration.{
  Fortnox, Registered, Cipher, unseal, with_cipher, use_answer, resolve, resolve-registered,
}

abbrev registered : Registered
registered = record { client_id = "own"; client_secret_sealed = "xyz" }

abbrev app : Fortnox ℕ
app = record { client_id = "app"; client_secret = "hidden"; settings = 3 }

abbrev own : Fortnox ℕ
own = record { client_id = "own"; client_secret = "secret"; settings = 3 }

abbrev cipher : Cipher
cipher sealed = ok "secret"

resolved : resolve (some (ok registered)) (some cipher) app ≡ ok own
unfolding resolve use_answer with_cipher unseal
resolved = refl

resolve-registered_example :
    (open_sealed : Cipher) × (some cipher ≡ some open_sealed)
    × (open_sealed registered.client_secret_sealed ≡ ok own.client_secret)
    × (own.client_id ≡ registered.client_id)
    × (own.settings ≡ app.settings)
resolve-registered_example = resolve-registered registered (some cipher) app own resolved
