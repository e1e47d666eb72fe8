-- ===== src/Vouchers/Assess.antt =====
-- `VoucherCacheState.Assess`: what may be done with the cached vouchers of a year, and why.
use cobalt_dingo.Prelude.{ℕ, not, ◌==◌, if◌then◌else◌}
use cobalt_dingo.Prelude.Int.{ℤ, pos, negsuc, eqb_ℤ, ltb_ℤ}
use cobalt_dingo.Dates.{Instant, is_zero, sub_time}
use cobalt_dingo.Vouchers.{
  CacheFreshness, fresh, stale, unverified, Reason, never_synced, nothing_to_serve, other_version,
  unchecked, fewer_remote, more_remote, too_old, verified,
}

-- `VoucherFetchVersion`
abbrev pub voucher_fetch_version : ℕ
voucher_fetch_version = 3

-- `RemoteTotalUnknown` is -1.
abbrev pub remote_total_unknown : ℤ
remote_total_unknown = negsuc 0

pub record VoucherCacheState : Type 0 where
  pub cached_count : ℕ
  pub remote_total : ℤ
  pub synced_at : Instant
  pub fetch_version : ℕ

-- `now` and `maxAge` (a duration in nanoseconds) come last, as in the source.
unfoldable pub assess : VoucherCacheState → Instant → ℤ → CacheFreshness × Reason
assess s now max_age =
    if is_zero s.synced_at
    then (stale, never_synced)
    else if not (s.fetch_version == voucher_fetch_version)
    then (stale, other_version s.fetch_version voucher_fetch_version)
    else if eqb_ℤ s.remote_total remote_total_unknown
    then (if s.cached_count == 0
        then (stale, nothing_to_serve)
        else (unverified, unchecked s.cached_count s.synced_at))
    else if ltb_ℤ s.remote_total (pos s.cached_count)
    then (stale, fewer_remote s.remote_total s.cached_count)
    else if ltb_ℤ (pos s.cached_count) s.remote_total
    then (stale, more_remote s.remote_total s.cached_count)
    else if ltb_ℤ max_age (sub_time now s.synced_at)
    then (stale, too_old s.cached_count)
    else (fresh, verified s.cached_count s.synced_at)
