-- ===== src/Tokens/Tests.antt =====
-- A token that is expired, read again under the lock and exchanged: the world counts the calls.
use cobalt_dingo.Prelude.{ℕ, suc, ◌≡◌, refl, some, ok}
use cobalt_dingo.Prelude.Int.{pos, ◌+ℤ◌}
use cobalt_dingo.Tokens.{
  OauthToken, Ports, outlasts, persisted, exchange, unless_lasting, under_lock, locked, renew_with,
  renew, load_token,
}
use cobalt_dingo.Tokens.Served.{Either, Renewed, load_token-ok}

abbrev expired : OauthToken
expired = record { access_token = "a"; refresh_token = "r"; expires_at = pos 1 }

abbrev renewed : OauthToken
renewed = record { access_token = "b"; refresh_token = "s"; expires_at = pos 1000 }

abbrev ports : Ports ℕ
ports = record {
  load = λ w. (ok expired, suc w);
  atomic_refresh = λ old new w. (ok tt, suc w);
  refresh = λ r w. (ok renewed, suc w);
  lock = some (record { acquire = λ w. (ok tt, suc w); release = λ w. suc w });
  now = λ w. (pos w, w);
}

exchanged : load_token ports (pos 10) 0 ≡ (ok renewed, 6)
unfolding load_token unless_lasting outlasts renew renew_with locked under_lock exchange persisted
    ◌+ℤ◌
exchanged = refl

load_token-ok_example :
    (read : OauthToken) × (w1 : ℕ) × (ports.load 0 ≡ (ok read, w1))
    × Either ports (pos 10) (Renewed ports (pos 10) ports.lock) read w1 renewed 6
load_token-ok_example = load_token-ok ports (pos 10) renewed 0 6 exchanged
