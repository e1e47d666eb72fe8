-- ===== src/Auth/Owners.antt =====
-- The directory of users: `ResolveOwner` of internal/adapter/postgres/user_directory.go, with the
-- rows of the tables `users` and `user_subjects`. `lower` is `unicode.ToLower`; `others` are the
-- rows that other logins insert between the insert and the read of this one.
use cobalt_dingo.Prelude.{
  ℕ, Bool, false, Option, none, some, List, [], ◌∷◌, map, String, if◌then◌else◌, Result, ok, err,
}
use cobalt_dingo.Prelude.Text.{Text, trim_space, is_empty_text, same_text}

pub record User : Type 0 where
  pub id : Text
  pub email : Text

pub record Subject : Type 0 where
  pub user_id : Text
  pub sub : Text
  pub issuer : Text

pub record Directory : Type 0 where
  pub users : List User
  pub subjects : List Subject

-- The calls that fail. A failed call changes nothing; a new id that is taken fails the insert.
pub record Faults : Type 0 where
  pub insert_fails : Bool
  pub read_fails : Bool
  pub record_fails : Bool

pub data OwnerError : Type 0 where
  empty_email no_user_id not_minted vanished not_read : OwnerError

-- `GetUserByEmail`
unfoldable pub get_user_by_email : Text → List User → Option Text
get_user_by_email email [] = none
get_user_by_email email (u ∷ users) =
    let rest = get_user_by_email email users in if same_text u.email email then some u.id else rest

abbrev pub unless_known : Option Text → User → List User → List User
unless_known none u users = u ∷ users
unless_known (some id) u users = users

-- `InsertUser`, with `ON CONFLICT (email) DO NOTHING`.
unfoldable pub insert_user : User → List User → List User
insert_user u users = unless_known (get_user_by_email u.email users) u users

unfoldable pub insert_users : List User → List User → List User
insert_users [] users = users
insert_users (u ∷ more) users = insert_users more (insert_user u users)

abbrev pub same_subject : Subject → Subject → Bool
same_subject a b = if same_text a.user_id b.user_id then same_text a.sub b.sub else false

-- `RecordUserSubject`: a subject that is there is only seen again.
unfoldable pub record_subject : Subject → List Subject → List Subject
record_subject s [] = s ∷ []
record_subject s (t ∷ subjects) =
    let rest = record_subject s subjects in if same_subject t s then t ∷ subjects else t ∷ rest

-- The answer to the read, and the audit row that is never a reason to fail.
abbrev pub answer_read :
    Faults → Text → Text → Option Text → Directory → Result OwnerError Text × Directory
answer_read faults sub issuer none d = (err vanished, d)
answer_read faults sub issuer (some id) d =
    let row : Subject = record { user_id = id; sub = sub; issuer = issuer } in
    if faults.record_fails
    then (ok id, d)
    else (ok id, record d { subjects = record_subject row d.subjects })

abbrev pub mint_and_read :
    Faults
    → Text
    → List User
    → Result String Text
    → Text
    → Text
    → Directory
    → Result OwnerError Text × Directory
mint_and_read faults issuer others (err e) email sub d = (err no_user_id, d)
mint_and_read faults issuer others (ok id) email sub d =
    let own : User = record { id = id; email = email } in
    let minted : Directory = record d { users = insert_users others (insert_user own d.users) } in
    if faults.insert_fails
    then (err not_minted, d)
    else if faults.read_fails
    then (err not_read, minted)
    else answer_read faults sub issuer (get_user_by_email email minted.users) minted

-- `ResolveOwner`; `fresh` is what `newUserID` returns.
unfoldable pub resolve_owner :
    (ℕ → ℕ)
    → Faults
    → Text
    → List User
    → Result String Text
    → Text
    → Text
    → Directory
    → Result OwnerError Text × Directory
resolve_owner lower faults issuer others fresh email sub d =
    let known : Text = map lower (trim_space email) in
    if is_empty_text known
    then (err empty_email, d)
    else mint_and_read faults issuer others fresh known sub d
