-- ===== src/Auth/Cookies.antt =====
-- Signed session cookies: `Set` and `Get` of internal/auth/session.go, and the middleware that asks
-- for them, internal/auth/middleware.go. JSON, base64 and the keyed hash are parameters; `sign` is
-- the base64 text of the hash.
use cobalt_dingo.Prelude.{
  ◌*◌, ◌^◌, ◌≡◌, false, not, Option, none, some, List, [], ◌∷◌, ◌++◌, if◌then◌else◌, Result, ok,
  err,
}
use cobalt_dingo.Prelude.Int.{ℤ, pos, ◌+ℤ◌, ltb_ℤ}
use cobalt_dingo.Prelude.Text.{Text, same_text, contains, starts_with}
use cobalt_dingo.Dates.{Instant}
use cobalt_dingo.Auth.{Session, cut}

pub record Codec (E : Type 0) : Type 0 where
  pub marshal : Session → Result E Text
  pub unmarshal : Text → Option Session
  pub encode : Text → Text
  pub decode : Text → Option Text
  pub sign : Text → Text

-- What is relied on: a session that is marshalled is read back, base64 is, and its alphabet has no
-- full stop.
pub record Laws {E : Type 0} (codec : Codec E) : Type 0 where
  pub unmarshal-marshal :
      (s : Session) (t : Text) → codec.marshal s ≡ ok t → codec.unmarshal t ≡ some s
  pub decode-encode : (t : Text) → codec.decode (codec.encode t) ≡ some t
  pub no_stop : (t : Text) → contains (codec.encode t) (b'.' ∷ []) ≡ false

-- What becomes of a request: the next handler with the session, if any, or the login page.
pub data Answer : Type 0 where
  served : Option Session → Answer
  redirected : Answer

abbrev pub with_session : Option Session → Answer
with_session none = redirected
with_session (some s) = served (some s)

abbrev pub day : ℤ
day = pos (24 * 3600 * 10 ^ 9)

module _ {E : Type 0} (codec : Codec E) where
  abbrev pub sealed_cookie : Result E Text → Result E Text
  sealed_cookie (err e) = err e
  sealed_cookie (ok payload) =
      let enc : Text = codec.encode payload in ok (enc ++ b'.' ∷ codec.sign enc)

  -- `SessionManager.Set`: the value of the cookie.
  unfoldable pub set_session : Instant → Session → Result E Text
  set_session now s = sealed_cookie (codec.marshal (record s { expires_at = now +ℤ day }))

  abbrev pub unless_expired : Instant → Option Session → Option Session
  unless_expired now none = none
  unless_expired now (some s) = if ltb_ℤ s.expires_at now then none else some s

  abbrev pub read_payload : Instant → Option Text → Option Session
  read_payload now none = none
  read_payload now (some payload) = unless_expired now (codec.unmarshal payload)

  abbrev pub read_parts : Instant → Option (Text × Text) → Option Session
  read_parts now none = none
  read_parts now (some (enc, sig)) =
      if not (same_text (codec.sign enc) sig) then none else read_payload now (codec.decode enc)

  abbrev pub read_cookie : Instant → Option Text → Option Session
  read_cookie now none = none
  read_cookie now (some value) = read_parts now (cut b'.' value)

  -- `SessionManager.Get`
  unfoldable pub get_session : Instant → Option Text → Option Session
  get_session now cookie = read_cookie now cookie

  -- `RequireAuth`
  unfoldable pub require_auth : Instant → Option Text → Answer
  require_auth now cookie = with_session (get_session now cookie)

  -- `AuthMiddleware`
  unfoldable pub auth_middleware : List Text → Instant → Text → Option Text → Answer
  auth_middleware [] now path cookie = with_session (get_session now cookie)
  auth_middleware (prefix ∷ prefixes) now path cookie =
      if starts_with prefix path then served none else auth_middleware prefixes now path cookie
