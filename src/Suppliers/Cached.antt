-- ===== src/Suppliers/Cached.antt =====
-- What the cache can answer.
use cobalt_dingo.Prelude.{
  ℕ, ◌≡◌, refl, subst, Bool, true, false, ◌&&◌, Option, none, some, List, [], ◌∷◌, String, str_eq,
  str_eq_iff, ◌==◌, ==_iff, Bool-cases, inl, inr, All, if◌then◌else◌, Result, ok, err,
}
use cobalt_dingo.Prelude.Int.{ltb_ℤ}
use cobalt_dingo.Suppliers.{
  CacheEntry, Cache, Enricher, put, State, keep, look_up, supplier_payment_details, invalidate,
  Call, details, forget, Answer, run_calls,
}

module _ {W : Type 0} (e : Enricher W) (Given : String → ℕ → String × String → Type 0)
    (gives : (tenant : String) (supplier : ℕ) (d : String × String) (w w1 : W)
      → e.inner tenant supplier w ≡ (ok d, w1)
      → Given tenant supplier d) where
  -- An outcome that, if it is one, was given.
  abbrev pub IsGiven : String → ℕ → Result String (String × String) → Type 0
  IsGiven tenant supplier (err x) = Unit
  IsGiven tenant supplier (ok d) = Given tenant supplier d

  abbrev EntryGiven : String → ℕ → Option CacheEntry → Type 0
  EntryGiven tenant supplier none = Unit
  EntryGiven tenant supplier (some entry) = Given tenant supplier (entry.iban, entry.bic)

  AllGiven : Cache → Type 0
  AllGiven cache = (t : String) (n : ℕ) → EntryGiven t n (cache t n)

  choose-EntryGiven :
      (b : Bool) (t : String) (n : ℕ) (x y : Option CacheEntry)
      → (b ≡ true → EntryGiven t n x)
      → EntryGiven t n y
      → EntryGiven t n (if b then x else y)
  choose-EntryGiven true t n x y hx hy = hx refl
  choose-EntryGiven false t n x y hx hy = hy

  both_true : (a b : Bool) → (a && b) ≡ true → (a ≡ true) × (b ≡ true)
  both_true true true h = (refl, refl)
  both_true true false h = cc
  both_true false b h = cc

  put-AllGiven :
      (tenant : String) (supplier : ℕ) (entry : Option CacheEntry) (cache : Cache)
      → EntryGiven tenant supplier entry
      → AllGiven cache
      → AllGiven (put tenant supplier entry cache)
  unfolding AllGiven
  put-AllGiven tenant supplier entry cache h hs t n =
      choose-EntryGiven (str_eq tenant t && supplier == n) t n entry (cache t n)
        (λ both.
          let (a, b) = both_true (str_eq tenant t) (supplier == n) both in
          subst (λ x. EntryGiven x n entry) ((str_eq_iff tenant t).0 a)
            (subst (λ k. EntryGiven tenant k entry) ((==_iff supplier n).0 b) h))
        (hs t n)

  keep-AllGiven :
      (tenant : String) (supplier : ℕ) (cache : Cache) (w : W)
      (x : Result String (String × String) × W)
      → e.inner tenant supplier w ≡ x
      → AllGiven cache
      → let out = keep e tenant supplier cache x in IsGiven tenant supplier out.0 × AllGiven out.1.0
  keep-AllGiven tenant supplier cache w (err x, w1) is hs = (tt, hs)
  keep-AllGiven tenant supplier cache w (ok d, w1) is hs =
      let given = gives tenant supplier d w w1 is in
      (given, put-AllGiven tenant supplier _ cache given hs)

  look_up-AllGiven :
      (tenant : String) (supplier : ℕ) (cache : Cache) (o : Option CacheEntry) (w : W)
      → EntryGiven tenant supplier o
      → AllGiven cache
      → let out = look_up e tenant supplier cache o w in
        IsGiven tenant supplier out.0 × AllGiven out.1.0
  look_up-AllGiven tenant supplier cache none w h hs =
      keep-AllGiven tenant supplier cache w (e.inner tenant supplier w) refl hs
  look_up-AllGiven tenant supplier cache (some entry) w h hs =
      let (at_time, w1) = e.now w in
      elim (Bool-cases (ltb_ℤ at_time entry.expires_at)) [
        | inl t ↦ rw t (h, hs)
        | inr n ↦ rw n (keep-AllGiven tenant supplier cache w1 (e.inner tenant supplier w1) refl hs)
      ]

  abbrev pub AnswerGiven : Answer → Type 0
  AnswerGiven a = IsGiven a.tenant a.supplier a.result

  calls-AllGiven :
      (calls : List Call) (s : State W) → AllGiven s.0 → All AnswerGiven (run_calls e calls s)
  unfolding run_calls supplier_payment_details AllGiven
  calls-AllGiven [] s hs = tt
  calls-AllGiven (details tenant supplier ∷ calls) (cache, w) hs =
      let (given, kept) =
        look_up-AllGiven tenant supplier cache (cache tenant supplier) w (hs tenant supplier) hs in
      (given, calls-AllGiven calls _ kept)
  calls-AllGiven (forget tenant supplier ∷ calls) (cache, w) hs =
      calls-AllGiven calls (invalidate tenant supplier cache, w)
        (put-AllGiven tenant supplier none cache tt hs)

  -- From an empty cache on, whatever is asked and invalidated in any order, an answer to a tenant
  -- about a supplier is one that the enricher inside gives for that tenant and that supplier, and
  -- never one that was kept for another.
  pub run_calls-AnswerGiven :
      (calls : List Call) (w : W) → All AnswerGiven (run_calls e calls ((λ t n. none), w))
  unfolding AllGiven
  run_calls-AnswerGiven calls w = calls-AllGiven calls ((λ t n. none), w) (λ t n. tt)
