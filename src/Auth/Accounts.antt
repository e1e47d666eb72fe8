-- ===== src/Auth/Accounts.antt =====
-- One account for each email address.
use cobalt_dingo.Prelude.{
  ℕ, ◌≡◌, refl, sym, ap, ◌∙◌, true, false, inl, inr, Option, none, some, List, [], ◌∷◌, map, String,
  Result, ok, err, Bool-cases, some-injective, arith,
}
use cobalt_dingo.Prelude.Text.{Text, trim_space, is_empty_text, same_text, same_text→eq}
use cobalt_dingo.Auth.{Session}
use cobalt_dingo.Auth.Owners.{
  User, Directory, Faults, OwnerError, get_user_by_email, insert_user, insert_users, unless_known,
  answer_read, mint_and_read, resolve_owner,
}
use cobalt_dingo.Auth.Login.{Identity, SessionError, new_session, session_for}

get-unless_known :
    (e a : Text) (found : Option Text) (u : User) (users : List User)
    → get_user_by_email u.email users ≡ found
    → get_user_by_email e users ≡ some a
    → get_user_by_email e (unless_known found u users) ≡ some a
unfolding get_user_by_email
get-unless_known e a (some id) u users f h = h
get-unless_known e a none u users f h = elim (Bool-cases (same_text u.email e)) [
  | inl t ↦ let at = rw (same_text→eq u.email e t) at f in let bad = sym at ∙ h in cc
  | inr n ↦ rw n h
]

get-insert_user :
    (e a : Text) (u : User) (users : List User)
    → get_user_by_email e users ≡ some a
    → get_user_by_email e (insert_user u users) ≡ some a
unfolding insert_user
get-insert_user e a u users h =
    get-unless_known e a (get_user_by_email u.email users) u users refl h

-- An owner that is read once is read ever after, whatever else is inserted.
get-insert_users :
    (e a : Text) (more users : List User)
    → get_user_by_email e users ≡ some a
    → get_user_by_email e (insert_users more users) ≡ some a
unfolding insert_users
get-insert_users e a [] users h = h
get-insert_users e a (u ∷ more) users h =
    get-insert_users e a more (insert_user u users) (get-insert_user e a u users h)

-- What a successful resolution leaves in the directory.
record Resolved (known : Text) (a : Text) (before after : Directory) : Type 0 where
  read : get_user_by_email known after.users ≡ some a
  log : List User
  inserted : after.users ≡ insert_users log before.users

answer_read-ok :
    (faults : Faults) (sub issuer : Text) (found : Option Text) (d d' : Directory) (a : Text)
    → answer_read faults sub issuer found d ≡ (ok a, d')
    → (found ≡ some a) × (d'.users ≡ d.users)
answer_read-ok faults sub issuer none d d' a h = ground arith
answer_read-ok faults sub issuer (some id) d d' a h = ground arith

mint_and_read-ok :
    (faults : Faults) (issuer : Text) (others : List User) (fresh : Result String Text)
    (known sub : Text) (d d' : Directory) (a : Text)
    → mint_and_read faults issuer others fresh known sub d ≡ (ok a, d')
    → Resolved known a d d'
unfolding insert_users
mint_and_read-ok faults issuer others (err e) known sub d d' a h = absurd (ground arith)
mint_and_read-ok faults issuer others (ok id) known sub d d' a h =
    let own : User = record { id = id; email = known } in
    let users : List User = insert_users others (insert_user own d.users) in
    let minted : Directory = record d { users = users } in
    elim (Bool-cases faults.insert_fails) [
      | inl f ↦ let bad = rw f at h in absurd (ground arith)
      | inr f ↦ elim (Bool-cases faults.read_fails) [
        | inl r ↦ let bad = rw (f, r) at h in absurd (ground arith)
        | inr r ↦
            let (found, kept) =
              answer_read-ok faults sub issuer (get_user_by_email known users) minted d' a
                (rw (f, r) at h) in
            record {
              read = ap (get_user_by_email known) kept ∙ found;
              log = own ∷ others;
              inserted = kept;
            }
      ]
    ]

resolve_owner-ok :
    (lower : ℕ → ℕ) (faults : Faults) (issuer : Text) (others : List User)
    (fresh : Result String Text) (email sub : Text) (d d' : Directory) (a : Text)
    → resolve_owner lower faults issuer others fresh email sub d ≡ (ok a, d')
    → Resolved (map lower (trim_space email)) a d d'
unfolding resolve_owner
resolve_owner-ok lower faults issuer others fresh email sub d d' a h =
    elim (Bool-cases (is_empty_text (map lower (trim_space email)))) [
      | inl e ↦ let bad = rw e at h in absurd (ground arith)
      | inr e ↦
          mint_and_read-ok faults issuer others fresh (map lower (trim_space email)) sub d d' a
            (rw e at h)
    ]

-- Two resolutions of one address, the second at any later time.
resolve_owner-agree :
    (known a b : Text) (d d1 d2 d3 : Directory) (more : List User)
    → Resolved known a d d1
    → d2.users ≡ insert_users more d1.users
    → Resolved known b d2 d3
    → a ≡ b
resolve_owner-agree known a b d d1 d2 d3 more first later second =
    let kept = get-insert_users known a more d1.users first.read in
    let still =
      get-insert_users known a second.log d2.users (ap (get_user_by_email known) later ∙ kept) in
    some-injective a b
      (sym still ∙ ap (get_user_by_email known) (sym second.inserted) ∙ second.read)

-- How a login asks this directory.
abbrev pub login :
    (ℕ → ℕ)
    → Faults
    → Text
    → List User
    → Result String Text
    → Identity
    → String
    → Directory
    → Result (SessionError OwnerError) Session × Directory
login lower faults issuer others fresh ident mode d =
    new_session lower (some (resolve_owner lower faults issuer others fresh)) ident mode d

session_for-ok :
    (ident : Identity) (email : Text) (mode : String) (r : Result OwnerError Text × Directory)
    (s : Session) (d : Directory)
    → session_for ident email mode r ≡ (ok s, d)
    → (r ≡ (ok s.owner, d)) × (is_empty_text (trim_space s.owner) ≡ false) × (s.email ≡ email)
session_for-ok ident email mode (err e, w) s d h = absurd (ground arith)
session_for-ok ident email mode (ok owner, w) s d h = ground arith

new_session-ok :
    (lower : ℕ → ℕ) (resolve : Text → Text → Directory → Result OwnerError Text × Directory)
    (ident : Identity) (mode : String) (d d' : Directory) (s : Session)
    → new_session lower (some resolve) ident mode d ≡ (ok s, d')
    → (ident.email_verified ≡ true)
      × (resolve (trim_space (map lower ident.email)) ident.sub d ≡ (ok s.owner, d'))
      × (is_empty_text (trim_space s.owner) ≡ false)
      × (s.email ≡ trim_space (map lower ident.email))
unfolding new_session
new_session-ok lower resolve ident mode d d' s h =
    let email : Text = trim_space (map lower ident.email) in
    elim (Bool-cases (is_empty_text email)) [
      | inl e ↦ let bad = rw e at h in absurd (ground arith)
      | inr e ↦ elim (Bool-cases ident.email_verified) [
        | inl v ↦
            let (asked, named, address) =
              session_for-ok ident email mode (resolve email ident.sub d) s d' (rw (e, v) at h) in
            (v, asked, named, address)
        | inr v ↦ let bad = rw (e, v) at h in absurd (ground arith)
      ]
    ]

-- If two logins succeed whose addresses agree up to case and outer spaces, the second at any later
-- time, after whatever rows other logins inserted, both have a verified address and their sessions
-- have the same owner, which is not empty. Neither the subject, the new ids that were drawn nor a
-- failure to record the subject matters.
pub login-same_owner :
    (lower : ℕ → ℕ) (faults faults' : Faults) (issuer issuer' : Text) (others others' : List User)
    (fresh fresh' : Result String Text) (ident ident' : Identity) (mode mode' : String)
    (d d1 d2 d3 : Directory) (more : List User) (s t : Session)
    → login lower faults issuer others fresh ident mode d ≡ (ok s, d1)
    → d2.users ≡ insert_users more d1.users
    → login lower faults' issuer' others' fresh' ident' mode' d2 ≡ (ok t, d3)
    → trim_space (map lower ident.email) ≡ trim_space (map lower ident'.email)
    → (s.owner ≡ t.owner)
      × (is_empty_text (trim_space s.owner) ≡ false)
      × (ident.email_verified ≡ true)
      × (ident'.email_verified ≡ true)
login-same_owner lower faults faults' issuer issuer' others others' fresh fresh' ident ident' mode
      mode' d d1 d2 d3 more s t first later second same =
    let (v, r, named, _) = new_session-ok lower _ ident mode d d1 s first in
    let (v', r', _, _) = new_session-ok lower _ ident' mode' d2 d3 t second in
    let a = resolve_owner-ok lower faults issuer others fresh _ _ d d1 s.owner r in
    let b =
      resolve_owner-ok lower faults' issuer' others' fresh' _ _ d2 d3 t.owner (rw (← same) at r') in
    (resolve_owner-agree _ s.owner t.owner d d1 d2 d3 more a later b, named, v, v')
