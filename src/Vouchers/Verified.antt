-- ===== src/Vouchers/Verified.antt =====
-- What the freshness of a served set is worth.
use cobalt_dingo.Prelude.{◌≡◌, ◌≢◌, ◌↔◌, false, arith}
use cobalt_dingo.Prelude.Int.{ℤ, pos, ◌≤ℤ◌}
use cobalt_dingo.Dates.{Instant, is_zero, sub_time}
use cobalt_dingo.Vouchers.{fresh, unverified}
use cobalt_dingo.Vouchers.Assess.{
  VoucherCacheState, assess, voucher_fetch_version, remote_total_unknown,
}

-- A cache may be used as it is exactly when it was synced, by this version of the fetch, holds as
-- many vouchers as the ERP counts, and the sync is no older than allowed.
pub assess-fresh_iff :
    (s : VoucherCacheState) (now : Instant) (max_age : ℤ)
    → ((assess s now max_age).0 ≡ fresh) ↔ (
        (is_zero s.synced_at ≡ false)
        × (s.fetch_version ≡ voucher_fetch_version)
        × (s.remote_total ≡ pos s.cached_count)
        × (sub_time now s.synced_at ≤ℤ max_age))
unfolding assess
assess-fresh_iff s now max_age = ((λ h. ground arith), (λ h. ground arith))

-- A cache may be served unverified exactly when it was synced by this version of the fetch, the
-- ERP's count is unknown, and there is something to serve.
assess-unverified_iff :
    (s : VoucherCacheState) (now : Instant) (max_age : ℤ)
    → ((assess s now max_age).0 ≡ unverified) ↔ (
        (is_zero s.synced_at ≡ false)
        × (s.fetch_version ≡ voucher_fetch_version)
        × (s.remote_total ≡ remote_total_unknown)
        × (s.cached_count ≢ 0))
unfolding assess
assess-unverified_iff s now max_age = ((λ h. ground arith), (λ h. ground arith))
