-- ===== src/Tokens/Stored/Winner.antt =====
-- A token that is stored and read again, and processes that refresh the same token at once.
use cobalt_dingo.Prelude.{
  ◌≡◌, refl, ap, ap₂, ◌∙◌, subst, Bool, true, false, ◌||◌, Option, none, some, List, [], ◌∷◌,
  String, str_eq, str_eq_refl, ◌⊎◌, inl, inr, Has, All, Bool-cases, if◌then◌else◌, Result, ok, err,
  ◌>>=◌, wrap_err, ok-injective, arith,
}
use cobalt_dingo.Prelude.Counts.{weight, count}
use cobalt_dingo.Prelude.Actions.{and_then-ok}
use cobalt_dingo.Secrets.{Library, seal_secret, open_secret, fingerprint}
use cobalt_dingo.Secrets.Sealed.{Laws, seal_secret-open_secret}
use cobalt_dingo.Tokens.{OauthToken}
use cobalt_dingo.Tokens.Stored.{
  Database, TokenRow, TokenRows, TokenError, no_old_refresh, conflict, bad_access, bad_refresh,
  access_unsealed, refresh_unsealed, put, replace, Store, read_row, load, seal_token, row_of,
  upsert_sealed, save, replaced, replace_sealed, atomic_refresh,
}

-- A token as the table gives it back: its instant is what the column keeps.
abbrev pub kept : Database → OauthToken → OauthToken
kept db token = record token { expires_at = db.timestamptz token.expires_at }

-- Whether the row is the one that was read.
abbrev holds : String → Option TokenRow → Bool
holds fp none = false
holds fp (some row) = str_eq fp row.refresh_token_fp

module _ {B W : Type 0} (db : Database) (lib : Library B W) (laws : Laws lib) where
  sealed_reads :
      (tenant : String) (token : OauthToken) (sealed : String × String)
      → open_secret lib sealed.0 ≡ ok (kept db token).access_token
      → open_secret lib sealed.1 ≡ ok (kept db token).refresh_token
      → read_row lib tenant (some (row_of db lib token sealed)) ≡ ok (kept db token)
  sealed_reads tenant token sealed a b =
      ap₂
        (λ x y. wrap_err (bad_access tenant) x >>= λ access.
          wrap_err (bad_refresh tenant) y >>= λ refresh.
          ok (record (kept db token) { access_token = access; refresh_token = refresh }))
        a b

  -- What was sealed is read as the token.
  seal_token-read_row :
      (tenant : String) (token : OauthToken) (sealed : String × String) (w w1 : W)
      → seal_token lib token w ≡ (ok sealed, w1)
      → read_row lib tenant (some (row_of db lib token sealed)) ≡ ok (kept db token)
  unfolding seal_token
  seal_token-read_row tenant token sealed w w1 e =
      elim (Bool-cases (str_eq token.access_token "" || str_eq token.refresh_token "")) [
        | inl t ↦ let bad = rw t at e in cc
        | inr n ↦
            let (access, w2, first, e1) =
              and_then-ok (seal_secret lib token.access_token) access_unsealed _ w w1 sealed
                (rw n at e) in
            let (refresh, w3, second, e2) =
              and_then-ok (seal_secret lib token.refresh_token) refresh_unsealed _ w2 w1 sealed
                e1 in
            let same =
              ok-injective _ _ (ap (λ (p : Result TokenError (String × String) × W). p.0) e2) in
            subst (λ s. read_row lib tenant (some (row_of db lib token s)) ≡ ok (kept db token))
              same
              (sealed_reads tenant token (access, refresh)
                (seal_secret-open_secret lib laws token.access_token access w w2 first)
                (seal_secret-open_secret lib laws token.refresh_token refresh w2 w3 second))
      ]

  put_read :
      (tenant : String) (row : Option TokenRow) (rows : TokenRows)
      → put tenant row rows tenant ≡ row
  put_read tenant row rows = ap (λ b. if b then row else rows tenant) (str_eq_refl tenant)

  saved-load :
      (tenant : String) (token : OauthToken) (rows : TokenRows) (w : W)
      (x : Result TokenError (String × String) × W) (s1 : Store W)
      → seal_token lib token w ≡ x
      → upsert_sealed db lib tenant token rows x ≡ (ok tt, s1)
      → load (some lib) tenant s1.0 ≡ ok (kept db token)
  saved-load tenant token rows w (err x, w1) s1 is e = cc
  saved-load tenant token rows w (ok sealed, w1) s1 is e =
      elim (Bool-cases (db.registered tenant)) [
        | inr n ↦ let bad = rw n at e in cc
        | inl t ↦
            let row = some (row_of db lib token sealed) in
            let e1 = rw t at e in
            let rows_are : put tenant row rows ≡ s1.0 =
              ap (λ (p : Result TokenError (Unit {0}) × Store W). p.1.0) e1 in
            subst (λ (r : TokenRows). load (some lib) tenant r ≡ ok (kept db token)) rows_are
              (ap (read_row lib tenant) (put_read tenant row rows)
                ∙ seal_token-read_row tenant token sealed w w1 is)
      ]

  -- A token that was saved is the one that is loaded, with its expiry as the TIMESTAMPTZ column
  -- keeps it, if the libraries open what they sealed.
  pub save-load :
      (tenant : String) (token : OauthToken) (s s1 : Store W)
      → save db (some lib) tenant token s ≡ (ok tt, s1)
      → load (some lib) tenant s1.0 ≡ ok (kept db token)
  unfolding save
  save-load tenant token (rows, w) s1 e =
      saved-load tenant token rows w (seal_token lib token w) s1 refl e

  abbrev Failed : TokenRows → Result TokenError (Unit {0}) × Store W → Type 0
  Failed rows out = (e : TokenError) × (out.0 ≡ err e) × (out.1.0 ≡ rows)

  abbrev Won :
      String → String → OauthToken → TokenRows → W → Result TokenError (Unit {0}) × Store W → Type 0
  Won tenant fp token rows w out =
      (sealed : String × String) × (w1 : W) × (seal_token lib token w ≡ (ok sealed, w1))
      × (out.0 ≡ ok tt)
      × (out.1.0 tenant ≡ some (row_of db lib token sealed))
      × (holds fp (rows tenant) ≡ true)

  replaced_cases :
      (tenant fp : String) (token : OauthToken) (rows : TokenRows) (w w1 : W)
      (sealed : String × String) (o : Option TokenRow)
      → rows tenant ≡ o
      → seal_token lib token w ≡ (ok sealed, w1)
      → let out = replaced rows (replace tenant fp (row_of db lib token sealed) o rows) w1 in
        Failed rows out ⊎ Won tenant fp token rows w out
  replaced_cases tenant fp token rows w w1 sealed none is s = inl (conflict, refl, refl)
  replaced_cases tenant fp token rows w w1 sealed (some row) is s =
      let new_row = row_of db lib token sealed in
      elim (Bool-cases (str_eq fp row.refresh_token_fp)) [
        | inl t ↦
            rw t
              (inr (sealed, w1, s, refl, put_read tenant (some new_row) rows, ap (holds fp) is ∙ t))
        | inr n ↦ rw n (inl (conflict, refl, refl))
      ]

  sealed_cases :
      (tenant fp : String) (token : OauthToken) (rows : TokenRows) (w : W)
      (x : Result TokenError (String × String) × W)
      → seal_token lib token w ≡ x
      → let out = replace_sealed db lib tenant fp token rows x in
        Failed rows out ⊎ Won tenant fp token rows w out
  sealed_cases tenant fp token rows w (err e, w1) s = inl (e, refl, refl)
  sealed_cases tenant fp token rows w (ok sealed, w1) s =
      replaced_cases tenant fp token rows w w1 sealed (rows tenant) refl s

  -- A refresh fails and changes no row, or it finds the row that was read and replaces it.
  atomic_refresh_cases :
      (tenant : String) (old token : OauthToken) (rows : TokenRows) (w : W)
      → let out = atomic_refresh db (some lib) tenant old token (rows, w) in
        Failed rows out ⊎ Won tenant (fingerprint lib old.refresh_token) token rows w out
  unfolding atomic_refresh
  atomic_refresh_cases tenant old token rows w =
      let fp = fingerprint lib old.refresh_token in
      elim (Bool-cases (str_eq fp "")) [
        | inl t ↦ rw t (inl (no_old_refresh, refl, refl))
        | inr n ↦ rw n (sealed_cases tenant fp token rows w (seal_token lib token w) refl)
      ]

-- Refreshes of one token that was read, one after the other, each with the token it got.
unfoldable pub race :
    {B W : Type 0}
    → Database
    → Option (Library B W)
    → String
    → OauthToken
    → List OauthToken
    → Store W
    → List (Result TokenError (Unit {0})) × Store W
race db cipher tenant old [] s = ([], s)
race db cipher tenant old (token ∷ tokens) s =
    let (r, s1) = atomic_refresh db cipher tenant old token s in
    let (rs, s2) = race db cipher tenant old tokens s1 in (r ∷ rs, s2)

abbrev pub has_won : Result TokenError (Unit {0}) → Bool
has_won (ok u) = true
has_won (err e) = false

module _ {B W : Type 0} (db : Database) (lib : Library B W) (laws : Laws lib) (tenant : String)
    (old : OauthToken) where
  abbrev fp_of : OauthToken → String
  fp_of token = fingerprint lib token.refresh_token

  -- A token whose refresh token is not the old one, by its fingerprint.
  abbrev pub IsRotated : OauthToken → Type 0
  IsRotated token = str_eq (fp_of old) (fp_of token) ≡ false

  abbrev raced : List OauthToken → Store W → List (Result TokenError (Unit {0})) × Store W
  raced = race db (some lib) tenant old

  -- Once the row is another one, no refresh succeeds and nothing is written.
  race-lost :
      (tokens : List OauthToken) (s : Store W)
      → holds (fp_of old) (s.0 tenant) ≡ false
      → (count has_won (raced tokens s).0 ≡ 0) × ((raced tokens s).1.0 ≡ s.0)
  unfolding race
  race-lost [] s h = (refl, refl)
  race-lost (token ∷ tokens) (rows, w) h =
      let s1 = (atomic_refresh db (some lib) tenant old token (rows, w)).1 in
      elim (atomic_refresh_cases db lib laws tenant old token rows w) [
        | inl (e, is_err, same) ↦
            let held = ap (λ (r : TokenRows). holds (fp_of old) (r tenant)) same ∙ h in
            let rest = race-lost tokens s1 held in
            let idle = ap (λ r. weight (has_won r)) is_err in
            (omega (arith, idle, rest.0), rest.1 ∙ same)
        | inr (sealed, w1, s, is_ok, row, held) ↦ cc
      ]

  -- Several processes that read the same token refresh it, one after the other in any order, each
  -- with a token whose refresh token has another fingerprint than the old one. Either none of the
  -- refreshes succeeds and nothing is written, or exactly one does, and the token that is loaded
  -- afterwards is that of one of them, with its expiry as the TIMESTAMPTZ column keeps it, if the
  -- libraries open what they sealed.
  pub race-one_winner :
      (tokens : List OauthToken) (s : Store W)
      → All IsRotated tokens
      → ((count has_won (race db (some lib) tenant old tokens s).0 ≡ 0)
          × ((race db (some lib) tenant old tokens s).1.0 ≡ s.0))
        ⊎ ((token : OauthToken) × Has token tokens
            × (count has_won (race db (some lib) tenant old tokens s).0 ≡ 1)
            × (load (some lib) tenant (race db (some lib) tenant old tokens s).1.0
                ≡ ok (kept db token)))
  unfolding race
  race-one_winner [] s hs = inl (refl, refl)
  race-one_winner (token ∷ tokens) (rows, w) (rotated, hs) =
      let s1 = (atomic_refresh db (some lib) tenant old token (rows, w)).1 in
      elim (atomic_refresh_cases db lib laws tenant old token rows w) [
        | inl (e, is_err, same) ↦
            let idle = ap (λ r. weight (has_won r)) is_err in
            elim (race-one_winner tokens s1 hs) [
              | inl (none_won, kept) ↦ inl (omega (arith, idle, none_won), kept ∙ same)
              | inr (winner, has, one_won, loaded) ↦
                  inr (winner, inr has, omega (arith, idle, one_won), loaded)
            ]
        | inr (sealed, w1, s, is_ok, row, held) ↦
            let busy = ap (λ r. weight (has_won r)) is_ok in
            let rest = race-lost tokens s1 (ap (holds (fp_of old)) row ∙ rotated) in
            inr (
              token,
              inl refl,
              omega (arith, busy, rest.0),
              ap (λ (r : TokenRows). read_row lib tenant (r tenant)) rest.1
                  ∙ ap (read_row lib tenant) row
                  ∙ seal_token-read_row db lib laws tenant token sealed w w1 s,
            )
      ]
