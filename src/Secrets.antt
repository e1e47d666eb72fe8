-- ===== src/Secrets.antt =====
-- Secrets at rest: `Seal`, `Open` and `Fingerprint` of internal/crypto/cipher.go. AES-GCM, base64,
-- HMAC, the random source and the bytes `B` are parameters: they are Go's libraries, with a key
-- derived before.
pub mod Sealed
pub mod Tests
use cobalt_dingo.Prelude.{
  ℕ, zero, suc, Option, none, some, List, [], ◌∷◌, ◌++◌, String, str_eq, length, ltb, if◌then◌else◌,
  Result, ok, err,
}
use cobalt_dingo.Words.{trim_str}
use cobalt_dingo.Prelude.Actions.{Action, pure, raise, attempt, and_then}

-- The libraries under one key. `hmac` is the hexadecimal text of the keyed hash.
pub record Library (B W : Type 0) : Type 0 where
  pub nonce_size : ℕ
  pub random : Action W String (List B)
  pub seal : List B → String → List B
  pub open_sealed : List B → List B → Option String
  pub encode : List B → String
  pub decode : String → Option (List B)
  pub hmac : String → String

pub data SecretError : Type 0 where
  no_nonce : String → SecretError
  not_base64 too_short not_authentic : SecretError

abbrev pub take : {A : Type 0} → ℕ → List A → List A
take zero xs = []
take (suc n) [] = []
take (suc n) (x ∷ xs) = x ∷ take n xs

abbrev pub drop : {A : Type 0} → ℕ → List A → List A
drop zero xs = xs
drop (suc n) [] = []
drop (suc n) (x ∷ xs) = drop n xs

module _ {B W : Type 0} (lib : Library B W) where
  -- `Seal`
  unfoldable pub seal_secret : String → Action W SecretError String
  seal_secret text = and_then (attempt lib.random) (λ r. elim r [
    | err e ↦ raise (no_nonce e)
    | ok nonce ↦ pure (lib.encode (nonce ++ lib.seal nonce text))
  ])

  abbrev pub authentic : Option String → Result SecretError String
  authentic none = err not_authentic
  authentic (some text) = ok text

  abbrev pub open_raw : Option (List B) → Result SecretError String
  open_raw none = err not_base64
  open_raw (some raw) =
      if ltb (length raw) lib.nonce_size
      then err too_short
      else authentic (lib.open_sealed (take lib.nonce_size raw) (drop lib.nonce_size raw))

  -- `Open`
  unfoldable pub open_secret : String → Result SecretError String
  open_secret sealed = open_raw (lib.decode sealed)

  -- `Fingerprint`
  unfoldable pub fingerprint : String → String
  fingerprint text = if str_eq (trim_str text) "" then "" else lib.hmac text
