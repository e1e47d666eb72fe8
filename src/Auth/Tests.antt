-- ===== src/Auth/Tests.antt =====
-- The state "n:s", a state of three parts, two logins of one person and the cookie of a session.
use native.Mathlib.Decide.{ℕ_discrete}
use cobalt_dingo.Prelude.{
  ◌≡◌, ◌↔◌, refl, Bool, true, false, none, some, List, [], ◌∷◌, Result, ok, err, String, str_eq,
  str_eq_iff, Bool-cases, inl, inr, map, ◌+◌, ◌-◌, ap, ap₂, sym, arith, if◌then◌else◌, length,
}
use cobalt_dingo.Prelude.Int.{pos, ◌+ℤ◌, ltb_ℤ}
use cobalt_dingo.Prelude.Text.{
  Text, contains, after_prefix, same_text, trim_space, trim_left, trim_right, is_space,
  is_empty_text,
}
use cobalt_dingo.Config.{is_valid}
use cobalt_dingo.Auth.{Session, oauth_state, cut, parse_oauth_state}
use cobalt_dingo.Auth.State.{IsPart, parse_oauth_state_iff}
use cobalt_dingo.Auth.Keys.{company_key, tenant_key, tenant_id}
use cobalt_dingo.Auth.Distinct.{tenant_id-injective}
use cobalt_dingo.Auth.Owners.{
  User, Directory, Faults, resolve_owner, get_user_by_email, insert_user, insert_users,
  record_subject,
}
use cobalt_dingo.Auth.Login.{Identity, new_session}
use cobalt_dingo.Auth.Accounts.{login, login-same_owner}
use cobalt_dingo.Auth.Cookies.{Codec, Laws, day, sealed_cookie, set_session, get_session}
use cobalt_dingo.Auth.Signed.{get_session-set_session, get_session-IsSigned, IsSigned}

parse_oauth_state_iff_example :
    (parse_oauth_state (b'n' ∷ b':' ∷ b's' ∷ []) ≡ some (b'n' ∷ [], b's' ∷ [])) ↔ (
      (◌≡◌ {A = Text} (b'n' ∷ b':' ∷ b's' ∷ []) (oauth_state (b'n' ∷ []) (b's' ∷ [])))
      × IsPart (b'n' ∷ [])
      × IsPart (b's' ∷ []))
parse_oauth_state_iff_example =
    parse_oauth_state_iff (b'n' ∷ b':' ∷ b's' ∷ []) (b'n' ∷ []) (b's' ∷ [])

three_parts : parse_oauth_state (b'n' ∷ b':' ∷ b's' ∷ b':' ∷ b't' ∷ []) ≡ none
unfolding cut contains after_prefix
three_parts = refl

abbrev blank : Session
blank = record {
  owner = [];
  sub = [];
  email = [];
  name = [];
  mode = "sandbox";
  company = [];
  fortnox_nonce = [];
  fortnox_nonce_at = pos 0;
  expires_at = pos 0;
}

-- An owner with a colon, and a number written in two ways.
abbrev plain : Session
plain = record blank { owner = b'a' ∷ b':' ∷ b'b' ∷ []; company = b'5' ∷ b'6' ∷ [] }

abbrev spaced : Session
spaced = record blank { owner = 32 ∷ b'a' ∷ b':' ∷ b'b' ∷ []; company = b'5' ∷ b'-' ∷ b'6' ∷ [] }

abbrev shared_key : Text
shared_key = tenant_key plain.owner "sandbox" plain.company

plain_key : tenant_id plain ≡ ok shared_key
unfolding tenant_id tenant_key company_key trim_space trim_left trim_right is_space is_valid
plain_key = refl

spaced_key : tenant_id spaced ≡ ok shared_key
unfolding tenant_id tenant_key company_key trim_space trim_left trim_right is_space is_valid
spaced_key = refl

tenant_id-injective_example :
    (trim_space plain.owner ≡ trim_space spaced.owner)
    × (plain.mode ≡ spaced.mode)
    × (company_key plain.company ≡ company_key spaced.company)
    × (is_empty_text (trim_space plain.owner) ≡ false)
    × (is_valid plain.mode ≡ true)
    × (is_empty_text (company_key plain.company) ≡ false)
tenant_id-injective_example = tenant_id-injective plain spaced shared_key plain_key spaced_key

abbrev faultless : Faults
faultless = record { insert_fails = false; read_fails = false; record_fails = false }

abbrev unaudited : Faults
unaudited = record faultless { record_fails = true }

abbrev before : Identity
before = record { sub = b'1' ∷ []; email = b'e' ∷ []; email_verified = true; name = [] }

abbrev moved : Identity
moved = record before { sub = b'2' ∷ []; email = 32 ∷ b'e' ∷ [] }

abbrev directory : Directory
directory = record { users = []; subjects = [] }

abbrev first : Session
first = record blank { owner = b'x' ∷ []; sub = b'1' ∷ []; email = b'e' ∷ [] }

abbrev known : Directory
known = record {
  users = record { id = b'x' ∷ []; email = b'e' ∷ [] } ∷ [];
  subjects = record { user_id = b'x' ∷ []; sub = b'1' ∷ []; issuer = [] } ∷ [];
}

abbrev others : List User
others = record { id = b'z' ∷ []; email = b'f' ∷ [] } ∷ []

abbrev later : Directory
later = record known { users = insert_users others known.users }

logged_in :
    login (λ c. c) faultless [] [] (ok (b'x' ∷ [])) before "sandbox" directory ≡ (ok first, known)
unfolding new_session resolve_owner insert_user insert_users get_user_by_email record_subject
    same_text trim_space trim_left trim_right is_space
logged_in = refl

-- Another subject, and another id drawn: the owner stays.
logged_in_again :
    login (λ c. c) unaudited [] [] (ok (b'y' ∷ [])) moved "sandbox" later
    ≡ (ok (record first { sub = b'2' ∷ [] }), later)
unfolding new_session resolve_owner insert_user insert_users get_user_by_email record_subject
    same_text trim_space trim_left trim_right is_space
logged_in_again = refl

login-same_owner_example :
    (first.owner ≡ first.owner)
    × (is_empty_text (trim_space first.owner) ≡ false)
    × (before.email_verified ≡ true)
    × (moved.email_verified ≡ true)
unfolding trim_space trim_left trim_right is_space
login-same_owner_example =
    login-same_owner (λ c. c) faultless unaudited [] [] [] [] (ok (b'x' ∷ [])) (ok (b'y' ∷ []))
      before moved "sandbox" "sandbox" directory known later later others first
      (record first { sub = b'2' ∷ [] }) logged_in refl logged_in_again refl

abbrev kept : Session
kept = record plain { expires_at = pos 5 +ℤ day }

string_discrete : Discrete String
string_discrete a b = elim (Bool-cases (str_eq a b)) [
  | inl e ↦ yes ((str_eq_iff a b).0 e)
  | inr e ↦ no (λ same. let eq = (str_eq_iff a b).1 same in cc)
]

Session-discrete : Discrete Session
Session-discrete = hlevel (ℕ_discrete, string_discrete)

-- A codec of one session; base64 adds to every code point, and a text is signed by its length.
abbrev marshal_kept : {s : Session} → Dec (s ≡ kept) → Result Bool Text
marshal_kept (yes e) = ok []
marshal_kept (no n) = err false

codec : Codec Bool
codec = record {
  marshal = λ s. marshal_kept (Session-discrete s kept);
  unmarshal = λ t. some kept;
  encode = map (λ c. c + 47);
  decode = λ t. some (map (λ c. c - 47) t);
  sign = λ t. length t ∷ [];
}

unmarshalled :
    (s : Session) (t : Text) (d : Dec (s ≡ kept)) → marshal_kept d ≡ ok t → some kept ≡ some s
unmarshalled s t (yes e) h = ap some (sym e)
unmarshalled s t (no n) h = cc

decoded : (t : Text) → map (λ c. c - 47) (map (λ c. c + 47) t) ≡ t
decoded [] = refl
decoded (c ∷ t) = ap₂ ◌∷◌ (omega arith) (decoded t)

no_stop_in : (t : Text) → contains (map (λ c. c + 47) t) (b'.' ∷ []) ≡ false
unfolding contains after_prefix
no_stop_in [] = refl
no_stop_in (c ∷ t) = ground (arith, no_stop_in t)

codec-Laws : Laws codec
unfolding codec
codec-Laws = record {
  unmarshal-marshal = λ s t h. unmarshalled s t (Session-discrete s kept) h;
  decode-encode = λ t. ap some (decoded t);
  no_stop = no_stop_in;
}

marshalled : (d : Dec (kept ≡ kept)) → marshal_kept d ≡ ok []
marshalled (yes e) = refl
marshalled (no n) = absurd (n refl)

abbrev value : Text
value = b'.' ∷ 0 ∷ []

set_kept : set_session codec (pos 5) plain ≡ ok value
unfolding set_session codec
set_kept = ap (sealed_cookie codec) (marshalled (Session-discrete kept kept))

get_session-set_session_example :
    get_session codec (pos 6) (some value)
    ≡ (if ltb_ℤ (pos 5 +ℤ day) (pos 6) then none else some kept)
get_session-set_session_example =
    get_session-set_session codec codec-Laws (pos 5) (pos 6) plain value set_kept

read_back : get_session codec (pos 6) (some value) ≡ some kept
unfolding get_session codec cut same_text ◌+ℤ◌
read_back = refl

get_session-IsSigned_example : IsSigned codec (pos 6) value kept
get_session-IsSigned_example = get_session-IsSigned codec (pos 6) value kept read_back
