-- ===== src/Connect/Refused.antt =====
-- A callback that is refused stores no token.
use cobalt_dingo.Prelude.{
  ◌≡◌, refl, ◌⊎◌, true, false, Option, none, some, str_eq, ok, Bool-cases, Option-cases,
  Result-cases, arith, inl, inr,
}
use cobalt_dingo.Prelude.Text.{Text}
use cobalt_dingo.Dates.{Instant}
use cobalt_dingo.Tenants.{Tenant, get_tenant, upsert_tenant}
use cobalt_dingo.Auth.{Session}
use cobalt_dingo.Auth.Keys.{company_key}
use cobalt_dingo.Connect.{
  Connector, World, Faults, Refusal, refused, session_error, company_conflict,
}
use cobalt_dingo.Connect.Callback.{
  Grant, check_callback, conflict_of, keep_token, keep_tenant, tenant_of, callback_handler,
}

-- Nothing is stored unless the very last step, the cookie, is what failed.
abbrev pub StoresNothing : Refusal → World → World → Type 0
StoresNothing r w w' = (r ≡ session_error) ⊎ ((w'.tokens ≡ w.tokens) × (w'.cookie ≡ w.cookie))

keep_token-refused :
    (faults : Faults) (s : Session) (g : Grant) (w w' : World) (r : Refusal)
    → keep_token faults s g w ≡ (refused r, w')
    → StoresNothing r w w'
keep_token-refused faults s g w w' r h = elim (Bool-cases faults.save_fails) [
  | inl e ↦ let same = rw e at h in inr (ground arith, ground arith)
  | inr e ↦ elim (Bool-cases faults.set_fails) [
    | inl f ↦ let same = rw (e, f) at h in inl (ground arith)
    | inr f ↦ let bad = rw (e, f) at h in absurd (ground arith)
  ]
]

keep_tenant-refused :
    (c : Connector) (faults : Faults) (s : Session) (g : Grant) (w w' : World) (r : Refusal)
    → keep_tenant c faults s g w ≡ (refused r, w')
    → StoresNothing r w w'
keep_tenant-refused c faults s g w w' r h = elim (Bool-cases c.has_tenant_repo) [
  | inr e ↦ keep_token-refused faults s g w w' r (rw e at h)
  | inl e ↦ elim (Bool-cases faults.upsert_fails) [
    | inl f ↦ let same = rw (e, f) at h in inr (ground arith, ground arith)
    | inr f ↦
        let row : Tenant = record { id = tenant_of s g; name = g.company.name } in
        keep_token-refused faults s g
          (record w { tenants = upsert_tenant c.precedes row w.tenants }) w' r (rw (e, f) at h)
  ]
]

-- Whatever a callback is refused for, no token is stored, replaced or removed and the cookie stays,
-- unless the refusal is that the cookie itself could not be set, the last step of all.
pub callback_handler-refused :
    (c : Connector) (faults : Faults) (now : Instant) (session : Option Session) (code state : Text)
    (w w' : World) (r : Refusal)
    → callback_handler c faults now session code state w ≡ (refused r, w')
    → StoresNothing r w w'
unfolding callback_handler
callback_handler-refused c faults now none code state w w' r h = inr (ground arith, ground arith)
callback_handler-refused c faults now (some s) code state w w' r h =
    elim (Result-cases (check_callback c now s code state)) [
      | inl (e, at) ↦ let same = rw at at h in inr (ground arith, ground arith)
      | inr (g, at) ↦
          let kept = rw at at h in
          elim (Option-cases (conflict_of c faults s g w)) [
            | inl free ↦ keep_tenant-refused c faults s g w w' r (rw free at kept)
            | inr (name, held) ↦ let same = rw held at kept in inr (ground arith, ground arith)
          ]
    ]

-- If the registry can be read and holds another company's name under the key that an accepted
-- callback derives, the callback is refused with both names and changes nothing at all.
callback_handler-conflict :
    (c : Connector) (faults : Faults) (now : Instant) (s : Session) (code state : Text) (w : World)
    (g : Grant) (t : Tenant)
    → check_callback c now s code state ≡ ok g
    → c.has_tenant_repo ≡ true
    → faults.get_fails ≡ false
    → get_tenant (tenant_of s g) w.tenants ≡ some t
    → str_eq t.name g.company.name ≡ false
    → callback_handler c faults now (some s) code state w
      ≡ (refused (company_conflict t.name (company_key g.company.org_number) g.company.name), w)
unfolding callback_handler
callback_handler-conflict c faults now s code state w g t checked repo reads held differs =
    let conflict : conflict_of c faults s g w ≡ some t.name =
      rw (repo, reads, held, differs) (refl) in
    rw (checked, conflict) (refl)
