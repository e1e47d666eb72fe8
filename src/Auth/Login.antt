-- ===== src/Auth/Login.antt =====
-- A session from a verified identity: `NewSession` of internal/auth/session.go. The directory is a
-- parameter, `none` where none is configured.
use cobalt_dingo.Prelude.{
  ℕ, Bool, not, Option, none, some, [], map, String, if◌then◌else◌, Result, ok, err,
}
use cobalt_dingo.Prelude.Text.{Text, trim_space, is_empty_text}
use cobalt_dingo.Prelude.Int.{pos}
use cobalt_dingo.Dates.{Instant}
use cobalt_dingo.Auth.{Session}

-- The claims of `verifiedIdentity` that a session is built from.
pub record Identity : Type 0 where
  pub sub : Text
  pub email : Text
  pub email_verified : Bool
  pub name : Text

pub data SessionError (E : Type 0) : Type 0 where
  no_email : SessionError E
  email_not_verified : Text → SessionError E
  no_directory : SessionError E
  unresolved : E → SessionError E
  empty_owner : SessionError E

abbrev pub zero_time : Instant
zero_time = pos 0

module _ {W E : Type 0} where
  abbrev pub session_for :
      Identity → Text → String → Result E Text × W → Result (SessionError E) Session × W
  session_for ident email mode (err e, w) = (err (unresolved e), w)
  session_for ident email mode (ok owner, w) =
      let s : Session = record {
        owner = owner;
        sub = ident.sub;
        email = email;
        name = ident.name;
        mode = mode;
        company = [];
        fortnox_nonce = [];
        fortnox_nonce_at = zero_time;
        expires_at = zero_time;
      } in
      if is_empty_text (trim_space owner) then (err empty_owner, w) else (ok s, w)

  abbrev pub ask_directory :
      Option (Text → Text → W → Result E Text × W)
      → Identity
      → Text
      → String
      → W
      → Result (SessionError E) Session × W
  ask_directory none ident email mode w = (err no_directory, w)
  ask_directory (some resolve) ident email mode w =
      session_for ident email mode (resolve email ident.sub w)

  -- `NewSession`
  unfoldable pub new_session :
      (ℕ → ℕ)
      → Option (Text → Text → W → Result E Text × W)
      → Identity
      → String
      → W
      → Result (SessionError E) Session × W
  new_session lower dir ident mode w =
      let email : Text = trim_space (map lower ident.email) in
      if is_empty_text email
      then (err no_email, w)
      else if not ident.email_verified
      then (err (email_not_verified email), w)
      else ask_directory dir ident email mode w
