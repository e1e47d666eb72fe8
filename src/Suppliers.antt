-- ===== src/Suppliers.antt =====
-- The cache of suppliers' payment details: internal/adapter/fortnox/supplier_cache.go. The enricher
-- inside it and the clock are parameters. Each call is one step: the lock is held for the map only,
-- so that calls may overlap between the lookup and the write, which is not modelled.
pub mod Cached
mod Tests
use cobalt_dingo.Prelude.{
  ℕ, Bool, ◌&&◌, Option, none, some, List, [], ◌∷◌, String, str_eq, ◌==◌, if◌then◌else◌, Result, ok,
  err,
}
use cobalt_dingo.Prelude.Int.{ℤ, ◌+ℤ◌, ltb_ℤ}
use cobalt_dingo.Prelude.Actions.{Action}
use cobalt_dingo.Dates.{Instant}

-- `cacheEntry`
pub record CacheEntry : Type 0 where
  pub iban : String
  pub bic : String
  pub expires_at : Instant

abbrev pub Cache : Type 0
Cache = String → ℕ → Option CacheEntry

-- `CachingEnricher`, without its cache.
pub record Enricher (W : Type 0) : Type 0 where
  pub inner : String → ℕ → Action W String (String × String)
  pub now : W → Instant × W
  pub ttl : ℤ

abbrev pub put : String → ℕ → Option CacheEntry → Cache → Cache
put tenant supplier entry cache t n = if str_eq tenant t && supplier == n then entry else cache t n

abbrev pub State : Type 0 → Type 0
State W = Cache × W

module _ {W : Type 0} (e : Enricher W) where
  -- The answer of the inner enricher is kept until the end of its time.
  abbrev pub keep :
      String
      → ℕ
      → Cache
      → Result String (String × String) × W
      → Result String (String × String) × State W
  keep tenant supplier cache (err x, w) = (err x, (cache, w))
  keep tenant supplier cache (ok (iban, bic), w) =
      let (at_time, w1) = e.now w in
      let entry : CacheEntry = record { iban = iban; bic = bic; expires_at = at_time +ℤ e.ttl } in
      (ok (iban, bic), (put tenant supplier (some entry) cache, w1))

  abbrev pub ask : String → ℕ → Cache → W → Result String (String × String) × State W
  ask tenant supplier cache w = keep tenant supplier cache (e.inner tenant supplier w)

  -- What the cache has; the clock is read only if it has something.
  abbrev pub look_up :
      String → ℕ → Cache → Option CacheEntry → W → Result String (String × String) × State W
  look_up tenant supplier cache none w = ask tenant supplier cache w
  look_up tenant supplier cache (some entry) w =
      let (at_time, w1) = e.now w in
      if ltb_ℤ at_time entry.expires_at
      then (ok (entry.iban, entry.bic), (cache, w1))
      else ask tenant supplier cache w1

  -- `SupplierPaymentDetails`
  unfoldable pub supplier_payment_details : String → ℕ → Action (State W) String (String × String)
  supplier_payment_details tenant supplier (cache, w) =
      look_up tenant supplier cache (cache tenant supplier) w

-- `Invalidate`
abbrev pub invalidate : String → ℕ → Cache → Cache
invalidate tenant supplier = put tenant supplier none

-- A call of one of the two methods.
pub data Call : Type 0 where
  details : String → ℕ → Call
  forget : String → ℕ → Call

-- A tenant's question with its answer.
pub record Answer : Type 0 where
  pub tenant : String
  pub supplier : ℕ
  pub result : Result String (String × String)

unfoldable pub run_calls : {W : Type 0} → Enricher W → List Call → State W → List Answer
run_calls e [] s = []
run_calls e (details tenant supplier ∷ calls) s =
    let (r, s1) = supplier_payment_details e tenant supplier s in
    record { tenant = tenant; supplier = supplier; result = r } ∷ run_calls e calls s1
run_calls e (forget tenant supplier ∷ calls) (cache, w) =
    run_calls e calls (invalidate tenant supplier cache, w)
