-- ===== src/Vouchers/Counted.antt =====
-- A set that `Vouchers` calls fresh, against the counts of the ERP during the same call.
use cobalt_dingo.Prelude.{
  ℕ, ◌≡◌, refl, ◌∙◌, ap, subst, ◌≢◌, List, [], ◌∷◌, String, length, Result, ok, err, Result-cases,
  Bool-cases, inl, inr,
}
use cobalt_dingo.Prelude.Int.{ℤ, pos, eqb_ℤ, eqb_ℤ→eq}
use cobalt_dingo.Ledger.{Voucher}
use cobalt_dingo.Vouchers.{CacheFreshness, fresh, stale, unverified, Reason, VoucherSet}
use cobalt_dingo.Vouchers.Assess.{remote_total_unknown}
use cobalt_dingo.Vouchers.Service.{
  CachedVouchers, Ports, ServiceError, confirm, refresh, serve, judge, count_failed, vouchers_of,
}
use cobalt_dingo.Vouchers.Verified.{assess-fresh_iff}

absurd_unknown : (n : ℤ) (k : ℕ) → n ≡ remote_total_unknown → n ≡ pos k → ⊥
absurd_unknown n k h e = cc

-- The worlds that a call reaches by the actions of its ports.
pub data Reached {W : Type 0} (ports : Ports W) (tenant : String) (year : ℕ) (w : W)
    : W → Type 0 where
  start : Reached ports tenant year w w
  loaded :
      {v : W}
      → Reached ports tenant year w v
      → Reached ports tenant year w (ports.load_year tenant year v).1
  counted :
      {v : W}
      → Reached ports tenant year w v
      → Reached ports tenant year w (ports.remote_total tenant year v).1
  fetched :
      {v : W}
      → Reached ports tenant year w v
      → Reached ports tenant year w (ports.fetch_year tenant year v).1
  timed : {v : W} → Reached ports tenant year w v → Reached ports tenant year w (ports.now v).1

module _ {W : Type 0} (ports : Ports W) (max_age : ℤ) (tenant : String) (year : ℕ) (w0 : W) where
  open ports use {load_year, save_year, remote_total, fetch_year, now}

  abbrev At : W → Type 0
  At = Reached ports tenant year w0

  -- The ERP reports this many vouchers, in a world that the call reaches.
  abbrev Counted : ℤ → Type 0
  Counted n = (v : W) × At v × ((remote_total tenant year v).0 ≡ ok n)

  -- A fresh set is as large as the ERP's count.
  abbrev IsCounted : Result ServiceError VoucherSet × W → Type 0
  IsCounted (err e, w) = Unit
  IsCounted (ok set, w) = set.freshness ≡ fresh → Counted (pos (length set.vouchers))

  confirm-IsCounted :
      (vouchers : List Voucher) (r : Result String ℤ) (w v : W)
      → At v
      → (remote_total tenant year v).0 ≡ r
      → IsCounted (confirm ports max_age tenant year vouchers r w)
  unfolding confirm
  confirm-IsCounted vouchers (err e) w v at h = λ f. cc
  confirm-IsCounted vouchers (ok n) w v at h = elim (Bool-cases (eqb_ℤ n (pos (length vouchers)))) [
    | inl same ↦
        rw same (elim (Result-cases (save_year tenant year vouchers n (now w).0 (now w).1).0) [
          | inl (e, q) ↦ rw q tt
          | inr (u, q) ↦ rw q (λ _. (v, at, h ∙ ap ok (eqb_ℤ→eq _ _ same)))
        ])
    | inr differs ↦ rw differs (λ f. cc)
  ]

  refresh-IsCounted :
      (why : Reason) (w : W) → At w → IsCounted (refresh ports max_age tenant year why w)
  unfolding refresh
  refresh-IsCounted why w at = elim (Result-cases (fetch_year tenant year w).0) [
    | inl (e, q) ↦ rw q tt
    | inr (vouchers, q) ↦ rw q (confirm-IsCounted vouchers _ _ _ (fetched at) refl)
  ]

  serve-IsCounted :
      (stored : CachedVouchers) (p : CacheFreshness × Reason) (w : W)
      → At w
      → (p.0 ≡ fresh → Counted (pos (length stored.vouchers)))
      → IsCounted (serve ports max_age tenant year stored p w)
  unfolding serve
  serve-IsCounted stored (fresh, why) w at h = h
  serve-IsCounted stored (stale, why) w at h = refresh-IsCounted why w at
  serve-IsCounted stored (unverified, why) w at h = λ f. cc

  judge-IsCounted :
      (stored : CachedVouchers) (total : ℤ) (w : W)
      → At w
      → (total ≢ remote_total_unknown → Counted total)
      → IsCounted (judge ports max_age tenant year stored total w)
  unfolding judge
  judge-IsCounted stored total w at h = serve-IsCounted stored _ _ (timed at) (λ f.
      let (_, _, same, _) = (assess-fresh_iff _ _ _).0 f in
      subst Counted same (h (λ z. absurd_unknown total _ z same)))

  count_failed-IsCounted :
      (stored : CachedVouchers) (vs : List Voucher) (e : String) (w : W)
      → At w
      → IsCounted (count_failed ports max_age tenant year stored vs e w)
  count_failed-IsCounted stored [] e w at = tt
  count_failed-IsCounted stored (v ∷ vs) e w at =
      judge-IsCounted stored remote_total_unknown w at (λ h. absurd (h refl))

  vouchers_of-IsCounted : IsCounted (vouchers_of ports max_age tenant year w0)
  unfolding vouchers_of
  vouchers_of-IsCounted = elim (Result-cases (load_year tenant year w0).0) [
    | inl (e, q) ↦ rw q tt
    | inr (stored, q) ↦
        rw q (elim (Result-cases (remote_total tenant year (load_year tenant year w0).1).0) [
          | inl (e, r) ↦
              rw r (count_failed-IsCounted stored stored.vouchers e _ (counted (loaded start)))
          | inr (n, r) ↦
              rw r (judge-IsCounted stored n _ (counted (loaded start)) (λ _. (_, loaded start, r)))
        ])
  ]

  -- Whatever the cache, the ERP and the clock do: if the service returns a set that it calls
  -- fresh, from the cache or just fetched, then in a world that the call reached the ERP reported
  -- exactly as many vouchers as the set holds.
  pub fresh-is_counted :
      (w' : W) (set : VoucherSet)
      → vouchers_of ports max_age tenant year w0 ≡ (ok set, w')
      → set.freshness ≡ fresh
      → (v : W) × Reached ports tenant year w0 v
        × ((remote_total tenant year v).0 ≡ ok (pos (length set.vouchers)))
  fresh-is_counted w' set e = subst IsCounted e vouchers_of-IsCounted
