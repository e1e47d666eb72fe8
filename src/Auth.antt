-- ===== src/Auth.antt =====
-- The session of a user, and the state of an authorization: internal/auth/session.go and
-- oauth_nonce.go. Texts are lists of code points; `hmac.Equal` is equality.
pub mod State
pub mod Keys
pub mod Distinct
pub mod Login
pub mod Owners
pub mod Accounts
pub mod Cookies
pub mod Signed
mod Tests
use cobalt_dingo.Prelude.{
  ℕ, ◌*◌, ◌^◌, Bool, false, ◌||◌, String, Option, none, some, List, [], ◌∷◌, ◌++◌, ◌==◌,
  if◌then◌else◌,
}
use cobalt_dingo.Prelude.Int.{ℤ, pos, ltb_ℤ}
use cobalt_dingo.Prelude.Text.{Text, same_text, is_empty_text, trim_space, contains}
use cobalt_dingo.Dates.{Instant, is_zero, sub_time}

-- `Session`
pub record Session : Type 0 where
  pub owner : Text
  pub sub : Text
  pub email : Text
  pub name : Text
  pub mode : String
  pub company : Text
  pub fortnox_nonce : Text
  pub fortnox_nonce_at : Instant
  pub expires_at : Instant

-- `oauthNonceTTL`
abbrev pub oauth_nonce_ttl : ℤ
oauth_nonce_ttl = pos (10 * 60 * 10 ^ 9)

-- `OAuthNonceValid`
unfoldable pub oauth_nonce_valid : Session → Text → Instant → Bool
oauth_nonce_valid s presented now =
    if is_empty_text (trim_space s.fortnox_nonce) || is_empty_text (trim_space presented)
    then false
    else if is_zero s.fortnox_nonce_at
    then false
    else if ltb_ℤ now s.fortnox_nonce_at
    then false
    else if ltb_ℤ oauth_nonce_ttl (sub_time now s.fortnox_nonce_at)
    then false
    else same_text (trim_space s.fortnox_nonce) (trim_space presented)

-- `OAuthState`
abbrev pub oauth_state : Text → Text → Text
oauth_state nonce mode = nonce ++ b':' ∷ mode

abbrev pub with_code : ℕ → Option (Text × Text) → Option (Text × Text)
with_code c none = none
with_code c (some (before, after)) = some (c ∷ before, after)

-- `strings.Cut` at a separator of one code point, `none` if there is none.
unfoldable pub cut : ℕ → Text → Option (Text × Text)
cut sep [] = none
cut sep (c ∷ cs) = let rest = with_code c (cut sep cs) in if sep == c then some ([], cs) else rest

abbrev pub both_parts : Option (Text × Text) → Option (Text × Text)
both_parts none = none
both_parts (some (nonce, mode)) =
    if is_empty_text nonce || is_empty_text mode || contains mode (b':' ∷ [])
    then none
    else some (nonce, mode)

-- `ParseOAuthState`
abbrev pub parse_oauth_state : Text → Option (Text × Text)
parse_oauth_state state = both_parts (cut b':' state)
