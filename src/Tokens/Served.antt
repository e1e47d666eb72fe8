-- ===== src/Tokens/Served.antt =====
-- Where the token comes from that `Load` of refreshing_token_store.go answers with.
use cobalt_dingo.Prelude.{
  ◌≡◌, ◌≢◌, refl, Bool, true, false, Option, none, some, str_eq, str_eq_iff, ◌⊎◌, inl, inr,
  Bool-cases, if◌then◌else◌, Result, ok, err,
}
use cobalt_dingo.Prelude.Int.{ℤ}
use cobalt_dingo.Prelude.Actions.{Action, and_then-ok}
use cobalt_dingo.Tokens.{
  OauthToken, StoreError, conflict, store_failed, LoadError, load_failed, lock_failed,
  reread_failed, refresh_failed, reload_failed, Lock, Ports, outlasts, persisted, exchange,
  unless_lasting, under_lock, locked, renew_with, renew, load_token,
}

module _ {W : Type 0} (ports : Ports W) (min_lifetime : ℤ) where
  -- The token that was read lasts, and nothing more is done.
  abbrev pub Lasts : OauthToken → W → OauthToken → W → Type 0
  Lasts read w tok w' = (outlasts ports min_lifetime read w ≡ (true, w')) × (read ≡ tok)

  -- The refresh token that was read is exchanged, and the store takes the new token or, where it
  -- reports a conflict, has the one that is answered.
  abbrev pub Exchanged : OauthToken → W → OauthToken → W → Type 0
  Exchanged read w tok w' =
      (new_token : OauthToken) × (w1 : W) × (ports.refresh read.refresh_token w
        ≡ (ok new_token, w1))
      × (((ports.atomic_refresh read new_token w1 ≡ (ok tt, w')) × (new_token ≡ tok))
          ⊎ ((w2 : W) × (ports.atomic_refresh read new_token w1 ≡ (err conflict, w2))
              × (ports.load w2 ≡ (ok tok, w'))))

  -- A token that was read lasts, or it does not and something else is done.
  abbrev pub Either :
      (OauthToken → W → OauthToken → W → Type 0) → OauthToken → W → OauthToken → W → Type 0
  Either Next read w tok w' =
      Lasts read w tok w'
      ⊎ ((w1 : W) × (outlasts ports min_lifetime read w ≡ (false, w1)) × Next read w1 tok w')

  -- With a lock, the token is read again once the lock is held, and that one is exchanged.
  abbrev pub Renewed : Option (Lock W) → OauthToken → W → OauthToken → W → Type 0
  Renewed none read w tok w' = (read.refresh_token ≢ "") × Exchanged read w tok w'
  Renewed (some l) read w tok w' =
      (read.refresh_token ≢ "")
      × ((w1 : W) × (again : OauthToken) × (w2 : W) × (w3 : W) × (l.acquire w ≡ (ok tt, w1))
          × (ports.load w1 ≡ (ok again, w2))
          × Either Exchanged again w2 tok w3
          × (l.release w3 ≡ w'))

  persisted-ok :
      (read new_token tok : OauthToken) (r : Result StoreError (Unit {0})) (w w1 w' : W)
      → ports.atomic_refresh read new_token w ≡ (r, w1)
      → persisted ports min_lifetime new_token r w1 ≡ (ok tok, w')
      → ((ports.atomic_refresh read new_token w ≡ (ok tt, w')) × (new_token ≡ tok))
        ⊎ ((w2 : W) × (ports.atomic_refresh read new_token w ≡ (err conflict, w2))
            × (ports.load w2 ≡ (ok tok, w')))
  unfolding persisted
  persisted-ok read new_token tok (ok u) w w1 w' is e = inl (cc, cc)
  persisted-ok read new_token tok (err (store_failed x)) w w1 w' is e = cc
  persisted-ok read new_token tok (err conflict) w w1 w' is e =
      let (again, w2, loaded, rest) = and_then-ok ports.load reload_failed _ w1 w' tok e in
      inr (w1, is, cc)

  exchange-ok :
      (read tok : OauthToken) (w w' : W)
      → exchange ports min_lifetime read w ≡ (ok tok, w')
      → Exchanged read w tok w'
  unfolding exchange
  exchange-ok read tok w w' e =
      let (new_token, w1, got, rest) =
        and_then-ok (ports.refresh read.refresh_token) refresh_failed _ w w' tok e in
      let out = ports.atomic_refresh read new_token w1 in
      (new_token, w1, got, persisted-ok read new_token tok out.0 w1 out.1 w' refl rest)

  lasting_cases :
      (next : OauthToken → Action W LoadError OauthToken) (read tok : OauthToken) (w w1 w' : W)
      (b : Bool)
      → outlasts ports min_lifetime read w ≡ (b, w1)
      → (if b then (ok read, w1) else next read w1) ≡ (ok tok, w')
      → Lasts read w tok w'
        ⊎ ((w2 : W) × (outlasts ports min_lifetime read w ≡ (false, w2))
            × (next read w2 ≡ (ok tok, w')))
  lasting_cases next read tok w w1 w' true is e = inl (cc, cc)
  lasting_cases next read tok w w1 w' false is e = inr (w1, is, e)

  unless_lasting-ok :
      (next : OauthToken → Action W LoadError OauthToken) (read tok : OauthToken) (w w' : W)
      → unless_lasting ports min_lifetime next read w ≡ (ok tok, w')
      → Lasts read w tok w'
        ⊎ ((w1 : W) × (outlasts ports min_lifetime read w ≡ (false, w1))
            × (next read w1 ≡ (ok tok, w')))
  unfolding unless_lasting
  unless_lasting-ok next read tok w w' e =
      let out = outlasts ports min_lifetime read w in
      lasting_cases next read tok w out.1 w' out.0 refl e

  exchange_cases :
      (read tok : OauthToken) (w w' : W)
      → unless_lasting ports min_lifetime (exchange ports min_lifetime) read w ≡ (ok tok, w')
      → Either Exchanged read w tok w'
  exchange_cases read tok w w' e =
      elim (unless_lasting-ok (exchange ports min_lifetime) read tok w w' e) [
        | inl lasts ↦ inl lasts
        | inr (w1, expired, rest) ↦ inr (w1, expired, exchange-ok read tok w1 w' rest)
      ]

  locked-ok :
      (l : Lock W) (read tok : OauthToken) (w w' : W)
      → read.refresh_token ≢ ""
      → locked ports min_lifetime l w ≡ (ok tok, w')
      → Renewed (some l) read w tok w'
  unfolding locked under_lock
  locked-ok l read tok w w' named e =
      let (u, w1, held, rest) = and_then-ok l.acquire lock_failed _ w w' tok e in
      let out = under_lock ports min_lifetime w1 in
      let done : under_lock ports min_lifetime w1 ≡ (ok tok, out.1) = cc in
      let (again, w2, reread, more) = and_then-ok ports.load reread_failed _ w1 out.1 tok done in
      (named, (w1, again, w2, out.1, held, reread, exchange_cases again tok w2 out.1 more, cc))

  renew_with-ok :
      (o : Option (Lock W)) (read tok : OauthToken) (w w' : W)
      → read.refresh_token ≢ ""
      → renew_with ports min_lifetime o read w ≡ (ok tok, w')
      → Renewed o read w tok w'
  unfolding renew_with
  renew_with-ok none read tok w w' named e = (named, exchange-ok read tok w w' e)
  renew_with-ok (some l) read tok w w' named e = locked-ok l read tok w w' named e

  renew-ok :
      (read tok : OauthToken) (w w' : W)
      → renew ports min_lifetime read w ≡ (ok tok, w')
      → Renewed ports.lock read w tok w'
  unfolding renew
  renew-ok read tok w w' e = elim (Bool-cases (str_eq read.refresh_token "")) [
    | inl t ↦ let bad = rw t at e in cc
    | inr n ↦
        let named : read.refresh_token ≢ "" =
          λ same. let t = (str_eq_iff read.refresh_token "").1 same in cc in
        renew_with-ok ports.lock read tok w w' named (rw n at e)
  ]

  -- A token that `Load` answers with was in the store and lasts, or it is what the token endpoint
  -- gave for the refresh token of the store and the store took it, or the store reported a conflict
  -- and it is the one read after that. The endpoint is asked only for a token that was read and
  -- does not last; where there is a lock, that token was read again after the lock was held, and
  -- the lock is released at the end.
  pub load_token-ok :
      (tok : OauthToken) (w w' : W)
      → load_token ports min_lifetime w ≡ (ok tok, w')
      → (read : OauthToken) × (w1 : W) × (ports.load w ≡ (ok read, w1))
        × Either (Renewed ports.lock) read w1 tok w'
  unfolding load_token
  load_token-ok tok w w' e =
      let (read, w1, loaded, rest) = and_then-ok ports.load load_failed _ w w' tok e in
      let cases = unless_lasting-ok (renew ports min_lifetime) read tok w1 w' rest in
      (
        read,
        w1,
        loaded,
        elim cases [
          | inl lasts ↦ inl lasts
          | inr (w2, expired, more) ↦ inr (w2, expired, renew-ok read tok w2 w' more)
        ],
      )
