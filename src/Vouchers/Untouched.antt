-- ===== src/Vouchers/Untouched.antt =====
-- When `Vouchers` writes the cache.
use cobalt_dingo.Prelude.{
  ℕ, ◌≡◌, ◌≢◌, refl, ◌∙◌, subst, List, [], ◌∷◌, String, length, Result, ok, err, Result-cases,
  Bool-cases, inl, inr,
}
use cobalt_dingo.Prelude.Int.{ℤ, pos, eqb_ℤ}
use cobalt_dingo.Ledger.{Voucher}
use cobalt_dingo.Vouchers.{CacheFreshness, fresh, stale, unverified, Reason, VoucherSet}
use cobalt_dingo.Vouchers.Service.{
  CachedVouchers, Ports, ServiceError, read_cache, count_unavailable, refresh_failed, save_failed,
  confirm, refresh, serve, judge, count_failed, vouchers_of,
}

-- What is stored of every year, as something that only `save_year` may change.
pub record ReadsOnly {W C : Type 0} (ports : Ports W) (cache : W → C) : Type 0 where
  pub load : (t : String) (y : ℕ) (w : W) → cache (ports.load_year t y w).1 ≡ cache w
  pub count : (t : String) (y : ℕ) (w : W) → cache (ports.remote_total t y w).1 ≡ cache w
  pub fetch : (t : String) (y : ℕ) (w : W) → cache (ports.fetch_year t y w).1 ≡ cache w
  pub clock : (w : W) → cache (ports.now w).1 ≡ cache w

module _ {W C : Type 0} (ports : Ports W) (cache : W → C) (laws : ReadsOnly ports cache)
    (max_age : ℤ) (tenant : String) (year : ℕ) (w0 : W) where
  open ports use {load_year, save_year, remote_total, fetch_year, now}

  abbrev Same : W → Type 0
  Same w = cache w ≡ cache w0

  abbrev IsUntouched : Result ServiceError VoucherSet × W → Type 0
  IsUntouched (err (save_failed e), w) = Unit
  IsUntouched (err (read_cache e), w) = Same w
  IsUntouched (err (count_unavailable e), w) = Same w
  IsUntouched (err (refresh_failed why e), w) = Same w
  IsUntouched (ok set, w) = set.freshness ≡ unverified → Same w

  confirm-IsUntouched :
      (vouchers : List Voucher) (r : Result String ℤ) (w : W)
      → Same w
      → IsUntouched (confirm ports max_age tenant year vouchers r w)
  unfolding confirm
  confirm-IsUntouched vouchers (err e) w s = λ _. laws.clock w ∙ s
  confirm-IsUntouched vouchers (ok n) w s = elim (Bool-cases (eqb_ℤ n (pos (length vouchers)))) [
    | inl same ↦
        rw same (elim (Result-cases (save_year tenant year vouchers n (now w).0 (now w).1).0) [
          | inl (e, q) ↦ rw q tt
          | inr (u, q) ↦ rw q (λ f. cc)
        ])
    | inr differs ↦ rw differs (λ _. laws.clock w ∙ s)
  ]

  refresh-IsUntouched :
      (why : Reason) (w : W) → Same w → IsUntouched (refresh ports max_age tenant year why w)
  unfolding refresh
  refresh-IsUntouched why w s =
      let fetched = laws.fetch tenant year w ∙ s in
      elim (Result-cases (fetch_year tenant year w).0) [
        | inl (e, q) ↦ rw q fetched
        | inr (vouchers, q) ↦
            rw q (confirm-IsUntouched vouchers _ _ (laws.count tenant year _ ∙ fetched))
      ]

  serve-IsUntouched :
      (stored : CachedVouchers) (p : CacheFreshness × Reason) (w : W)
      → Same w
      → IsUntouched (serve ports max_age tenant year stored p w)
  unfolding serve
  serve-IsUntouched stored (fresh, why) w s = λ f. cc
  serve-IsUntouched stored (stale, why) w s = refresh-IsUntouched why w s
  serve-IsUntouched stored (unverified, why) w s = λ _. s

  judge-IsUntouched :
      (stored : CachedVouchers) (total : ℤ) (w : W)
      → Same w
      → IsUntouched (judge ports max_age tenant year stored total w)
  unfolding judge
  judge-IsUntouched stored total w s = serve-IsUntouched stored _ _ (laws.clock w ∙ s)

  count_failed-IsUntouched :
      (stored : CachedVouchers) (vs : List Voucher) (e : String) (w : W)
      → Same w
      → IsUntouched (count_failed ports max_age tenant year stored vs e w)
  count_failed-IsUntouched stored [] e w s = s
  count_failed-IsUntouched stored (v ∷ vs) e w s = judge-IsUntouched stored _ w s

  vouchers_of-IsUntouched : IsUntouched (vouchers_of ports max_age tenant year w0)
  unfolding vouchers_of
  vouchers_of-IsUntouched =
      let read = laws.load tenant year w0 in
      elim (Result-cases (load_year tenant year w0).0) [
        | inl (e, q) ↦ rw q read
        | inr (stored, q) ↦
            rw q (elim (Result-cases (remote_total tenant year (load_year tenant year w0).1).0) [
              | inl (e, r) ↦ rw r (
                  count_failed-IsUntouched stored stored.vouchers e _
                    (laws.count tenant year _ ∙ read))
              | inr (n, r) ↦ rw r (judge-IsUntouched stored n _ (laws.count tenant year _ ∙ read))
            ])
      ]

  -- If reading the cache, counting, fetching and looking at the clock change nothing stored, then
  -- a call that ends in an unverified set leaves the stored vouchers as they were: a torn read is
  -- never stored.
  unverified-keeps_cache :
      (w' : W) (set : VoucherSet)
      → vouchers_of ports max_age tenant year w0 ≡ (ok set, w')
      → set.freshness ≡ unverified
      → cache w' ≡ cache w0
  unverified-keeps_cache w' set e = subst IsUntouched e vouchers_of-IsUntouched

  -- Under the same assumption, a call that fails leaves the stored vouchers as they were, unless
  -- what failed is the save itself.
  error-keeps_cache :
      (w' : W) (e : ServiceError)
      → vouchers_of ports max_age tenant year w0 ≡ (err e, w')
      → ((text : String) → e ≢ save_failed text)
      → cache w' ≡ cache w0
  error-keeps_cache w' (save_failed text) q h = absurd (h text refl)
  error-keeps_cache w' (read_cache text) q h = subst IsUntouched q vouchers_of-IsUntouched
  error-keeps_cache w' (count_unavailable text) q h = subst IsUntouched q vouchers_of-IsUntouched
  error-keeps_cache w' (refresh_failed why text) q h = subst IsUntouched q vouchers_of-IsUntouched
