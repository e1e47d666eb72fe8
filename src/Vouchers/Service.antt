-- ===== src/Vouchers/Service.antt =====
-- `VoucherService`: a year of vouchers from the cache where its completeness can be shown, and
-- from the ERP where it cannot. The cache, the ERP and the clock are interfaces of the source
-- (`VoucherCache`, `VoucherSource` and the injected `now`); here they are one record of actions on
-- a world that nothing is known of.
use cobalt_dingo.Prelude.{ℕ, not, List, [], ◌∷◌, String, length, Result, ok, err, if◌then◌else◌}
use cobalt_dingo.Prelude.Int.{ℤ, pos, eqb_ℤ}
use cobalt_dingo.Prelude.Actions.{Action, pure, raise, attempt, and_then}
use cobalt_dingo.Dates.{Instant}
use cobalt_dingo.Ledger.{Voucher}
use cobalt_dingo.Vouchers.{
  CacheFreshness, fresh, stale, unverified, Reason, unconfirmed_read, torn_read, fetched,
  VoucherSet,
}
use cobalt_dingo.Vouchers.Assess.{VoucherCacheState, assess, remote_total_unknown}

-- `CachedVouchers`
pub record CachedVouchers : Type 0 where
  pub vouchers : List Voucher
  pub synced_at : Instant
  pub fetch_version : ℕ

-- The ports of the service. A text stands for the error of a port.
pub record Ports (W : Type 0) : Type 0 where
  pub load_year : String → ℕ → Action W String CachedVouchers
  pub save_year : String → ℕ → List Voucher → ℤ → Instant → Action W String (Unit {0})
  pub remote_total : String → ℕ → Action W String ℤ
  pub fetch_year : String → ℕ → Action W String (List Voucher)
  pub now : W → Instant × W

-- The wrapped errors of the service.
pub data ServiceError : Type 0 where
  read_cache : String → ServiceError
  count_unavailable : String → ServiceError
  refresh_failed : Reason → String → ServiceError
  save_failed : String → ServiceError

module _ {W : Type 0} (ports : Ports W) (max_age : ℤ) where
  open ports use {load_year, save_year, remote_total, fetch_year, now}

  -- The end of `refresh`, once the total has been read again.
  unfoldable pub confirm :
      String → ℕ → List Voucher → Result String ℤ → Action W ServiceError VoucherSet
  confirm tenant year vouchers (err e) w =
      let (at_time, w1) = now w in
      (
        ok (record {
          vouchers = vouchers;
          freshness = unverified;
          as_of = at_time;
          reason = unconfirmed_read (length vouchers);
        }),
        w1,
      )
  confirm tenant year vouchers (ok after) w =
      let (at_time, w1) = now w in
      let torn : VoucherSet = record {
        vouchers = vouchers;
        freshness = unverified;
        as_of = at_time;
        reason = torn_read (length vouchers) after;
      } in
      let complete : VoucherSet = record {
        vouchers = vouchers;
        freshness = fresh;
        as_of = at_time;
        reason = fetched (length vouchers) at_time;
      } in
      if not (eqb_ℤ after (pos (length vouchers)))
      then (ok torn, w1)
      else and_then (attempt (save_year tenant year vouchers after at_time))
          (λ saved. elim saved [ ok _ ↦ pure complete | err e ↦ raise (save_failed e) ]) w1

  -- `refresh`
  unfoldable pub refresh : String → ℕ → Reason → Action W ServiceError VoucherSet
  refresh tenant year why = and_then (attempt (fetch_year tenant year)) (λ r. elim r [
    | err e ↦ raise (refresh_failed why e)
    | ok vouchers ↦
        and_then (attempt (remote_total tenant year)) (λ after. confirm tenant year vouchers after)
  ])

  -- The `switch` on the freshness of the cached set.
  unfoldable pub serve :
      String → ℕ → CachedVouchers → CacheFreshness × Reason → Action W ServiceError VoucherSet
  serve tenant year stored (fresh, reason) = pure (record {
    vouchers = stored.vouchers;
    freshness = fresh;
    as_of = stored.synced_at;
    reason = reason;
  })
  serve tenant year stored (unverified, reason) = pure (record {
    vouchers = stored.vouchers;
    freshness = unverified;
    as_of = stored.synced_at;
    reason = reason;
  })
  serve tenant year stored (stale, reason) = refresh tenant year reason

  -- The cached set against a remote total, `RemoteTotalUnknown` where there is none.
  unfoldable pub judge : String → ℕ → CachedVouchers → ℤ → Action W ServiceError VoucherSet
  judge tenant year stored total w =
      let (at_time, w1) = now w in
      let state : VoucherCacheState = record {
        cached_count = length stored.vouchers;
        remote_total = total;
        synced_at = stored.synced_at;
        fetch_version = stored.fetch_version;
      } in
      serve tenant year stored (assess state at_time max_age) w1

  abbrev pub count_failed :
      String → ℕ → CachedVouchers → List Voucher → String → Action W ServiceError VoucherSet
  count_failed tenant year stored [] e = raise (count_unavailable e)
  count_failed tenant year stored (v ∷ vs) e = judge tenant year stored remote_total_unknown

  -- `Vouchers`
  unfoldable pub vouchers_of : String → ℕ → Action W ServiceError VoucherSet
  vouchers_of tenant year = and_then (attempt (load_year tenant year)) (λ loaded. elim loaded [
    | err e ↦ raise (read_cache e)
    | ok stored ↦ and_then (attempt (remote_total tenant year)) (λ counted. elim counted [
      | ok total ↦ judge tenant year stored total
      | err e ↦ count_failed tenant year stored stored.vouchers e
    ])
  ])
