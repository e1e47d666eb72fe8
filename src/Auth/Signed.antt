-- ===== src/Auth/Signed.antt =====
-- A cookie that was set is read back until it expires, and no other is read.
use cobalt_dingo.Prelude.{
  ◌≡◌, refl, sym, ap, ◌∙◌, false, not, Option, none, some, ◌∷◌, ◌++◌, if◌then◌else◌, Result, ok,
  err, Bool-cases, some-injective, ok-injective, inl, inr,
}
use cobalt_dingo.Prelude.Int.{ltb_ℤ, ◌+ℤ◌}
use cobalt_dingo.Prelude.Text.{Text, same_text, same_text→eq, same_text_refl}
use cobalt_dingo.Dates.{Instant}
use cobalt_dingo.Auth.{Session, cut}
use cobalt_dingo.Auth.State.{cut-append, cut-IsCut}
use cobalt_dingo.Auth.Cookies.{
  Codec, Laws, day, sealed_cookie, set_session, unless_expired, read_payload, read_parts,
  get_session,
}

module _ {E : Type 0} (codec : Codec E) where
  sealed_cookie-ok :
      (r : Result E Text) (value : Text)
      → sealed_cookie codec r ≡ ok value
      → (t : Text) × (r ≡ ok t) × (value ≡ codec.encode t ++ b'.' ∷ codec.sign (codec.encode t))
  sealed_cookie-ok (err e) value h = cc
  sealed_cookie-ok (ok t) value h = (t, refl, sym (ok-injective _ _ h))

  -- The cookie that `Set` makes at `now` gives `Get` the same session, which expires a day after
  -- `now`; after that moment it gives none. JSON, base64 and the full stop keep their laws.
  pub get_session-set_session :
      Laws codec
      → (now later : Instant) (s : Session) (value : Text) → set_session codec now s ≡ ok value
      → get_session codec later (some value)
        ≡ (if ltb_ℤ (now +ℤ day) later then none else some (record s { expires_at = now +ℤ day }))
  unfolding set_session get_session
  get_session-set_session laws now later s value h =
      let kept : Session = record s { expires_at = now +ℤ day } in
      let (t, marshalled, form) = sealed_cookie-ok (codec.marshal kept) value h in
      let enc : Text = codec.encode t in
      let parts : cut b'.' value ≡ some (enc, codec.sign enc) =
        ap (cut b'.') form ∙ cut-append b'.' enc (codec.sign enc) (laws.no_stop t) in
      ap (read_parts codec later) parts
      ∙ ap (λ b. if not b then none else read_payload codec later (codec.decode enc))
          (same_text_refl (codec.sign enc))
      ∙ ap (read_payload codec later) (laws.decode-encode t)
      ∙ ap (unless_expired codec later) (laws.unmarshal-marshal kept t marshalled)

  unless_expired-some :
      (now : Instant) (o : Option Session) (s : Session)
      → unless_expired codec now o ≡ some s
      → (o ≡ some s) × (ltb_ℤ s.expires_at now ≡ false)
  unless_expired-some now none s h = cc
  unless_expired-some now (some t) s h = elim (Bool-cases (ltb_ℤ t.expires_at now)) [
    | inl e ↦ let bad = rw e at h in cc
    | inr e ↦ let same = rw e at h in (same, rw (← some-injective t s same) e)
  ]

  read_payload-some :
      (now : Instant) (o : Option Text) (s : Session)
      → read_payload codec now o ≡ some s
      → (payload : Text) × (o ≡ some payload)
        × (codec.unmarshal payload ≡ some s)
        × (ltb_ℤ s.expires_at now ≡ false)
  read_payload-some now none s h = cc
  read_payload-some now (some payload) s h =
      let (same, fresh) = unless_expired-some now (codec.unmarshal payload) s h in
      (payload, refl, same, fresh)

  -- What an accepted cookie holds.
  abbrev pub IsSigned : Instant → Text → Session → Type 0
  IsSigned now value s =
      (enc : Text) × (payload : Text) × (value ≡ enc ++ b'.' ∷ codec.sign enc)
      × (codec.decode enc ≡ some payload)
      × (codec.unmarshal payload ≡ some s)
      × (ltb_ℤ s.expires_at now ≡ false)

  read_parts-some :
      (now : Instant) (value : Text) (parts : Option (Text × Text)) (s : Session)
      → cut b'.' value ≡ parts
      → read_parts codec now parts ≡ some s
      → IsSigned now value s
  read_parts-some now value none s form h = cc
  read_parts-some now value (some (enc, sig)) s form h =
      elim (Bool-cases (same_text (codec.sign enc) sig)) [
        | inl e ↦
            let (payload, decoded, read, fresh) =
              read_payload-some now (codec.decode enc) s (rw e at h) in
            let (joined, _) = cut-IsCut b'.' value (enc, sig) form in
            let signed = same_text→eq (codec.sign enc) sig e in
            (enc, payload, rw signed joined, decoded, read, fresh)
        | inr e ↦ let bad = rw e at h in cc
      ]

  -- A cookie that `Get` accepts is a text, a full stop and the signature of that text, which decodes
  -- to a session that has not expired: whatever else a client sends is no session.
  pub get_session-IsSigned :
      (now : Instant) (value : Text) (s : Session)
      → get_session codec now (some value) ≡ some s
      → IsSigned now value s
  unfolding get_session
  get_session-IsSigned now value s h = read_parts-some now value (cut b'.' value) s refl h
