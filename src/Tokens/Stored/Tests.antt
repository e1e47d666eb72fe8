-- ===== src/Tokens/Stored/Tests.antt =====
-- A tenant's token saved, and two processes that refresh it.
use cobalt_dingo.Prelude.{
  ℕ, ◌*◌, ◌/◌, ◌≡◌, true, refl, ◌⊎◌, Has, none, some, List, [], ◌∷◌, String, Result, ok,
}
use cobalt_dingo.Prelude.Int.{pos, negsuc}
use cobalt_dingo.Prelude.Counts.{count}
use cobalt_dingo.Prelude.Text.{is_space}
use cobalt_dingo.Words.{trim_str, trim_str_left, trim_str_right}
use cobalt_dingo.Dates.{Instant}
use cobalt_dingo.Secrets.{seal_secret, fingerprint}
use cobalt_dingo.Secrets.Tests.{plain, plain-Laws, chars_of}
use cobalt_dingo.Tokens.{OauthToken}
use cobalt_dingo.Tokens.Stored.{Database, TokenError, Store, put, row_of, seal_token, save, load}
use cobalt_dingo.Tokens.Stored.Winner.{kept, save-load, race, has_won, race-one_winner}

-- A column that keeps the whole microseconds.
abbrev whole_micros : Instant → Instant
whole_micros (pos n) = pos (n / 1000 * 1000)
whole_micros (negsuc n) = negsuc (n / 1000 * 1000)

abbrev micros : Database
micros = record { timestamptz = whole_micros; registered = λ t. true }

abbrev token : String → String → OauthToken
token access refresh = record {
  access_token = access;
  refresh_token = refresh;
  expires_at = pos 1005;
}

abbrev empty : Store ℕ
empty = ((λ t. none), 0)

abbrev saved : Store ℕ
saved = (put "t" (some (row_of micros plain (token "a" "r") ("na", "nr"))) empty.0, 2)

is_saved : save micros (some plain) "t" (token "a" "r") empty ≡ (ok tt, saved)
unfolding save seal_token seal_secret chars_of
is_saved = refl

save-load_example : load (some plain) "t" saved.0 ≡ ok (kept micros (token "a" "r"))
save-load_example = save-load micros plain plain-Laws "t" (token "a" "r") empty saved is_saved

abbrev tokens : List OauthToken
tokens = token "b" "s" ∷ token "c" "u" ∷ []

abbrev raced : List (Result TokenError (Unit {0})) × Store ℕ
raced = race micros (some plain) "t" (token "a" "r") tokens saved

race-one_winner_example :
    ((count has_won raced.0 ≡ 0) × (raced.1.0 ≡ saved.0))
    ⊎ ((winner : OauthToken) × Has winner tokens
        × (count has_won raced.0 ≡ 1)
        × (load (some plain) "t" raced.1.0 ≡ ok (kept micros winner)))
unfolding fingerprint trim_str trim_str_right trim_str_left is_space
race-one_winner_example =
    race-one_winner micros plain plain-Laws "t" (token "a" "r") tokens saved (refl, (refl, tt))
