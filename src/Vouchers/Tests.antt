-- ===== src/Vouchers/Tests.antt =====
-- A year of one voucher, served from a cache that is up to date, from one that cannot be checked,
-- and not served at all.
use cobalt_dingo.Prelude.{ℕ, suc, ◌≡◌, ◌≢◌, refl, [], ◌∷◌, String, Result, ok, err}
use cobalt_dingo.Prelude.Int.{ℤ, pos, ◌-ℤ◌}
use cobalt_dingo.Dates.{sub_time}
use cobalt_dingo.Ledger.{Voucher}
use cobalt_dingo.Vouchers.{fresh, unverified, verified, unchecked, VoucherSet}
use cobalt_dingo.Vouchers.Assess.{VoucherCacheState, assess}
use cobalt_dingo.Vouchers.Service.{
  CachedVouchers, Ports, ServiceError, read_cache, vouchers_of, serve, judge,
}
use cobalt_dingo.Vouchers.Counted.{Reached, fresh-is_counted}
use cobalt_dingo.Vouchers.Untouched.{ReadsOnly}

abbrev voucher : Voucher
voucher = record {
  series = "A";
  number = pos 1;
  description = "";
  transaction_date = "2026-01-01";
  year = 1;
  rows = [];
}

abbrev stored : CachedVouchers
stored = record { vouchers = voucher ∷ []; synced_at = pos 10; fetch_version = 3 }

-- The world is the number of writes to the cache.
abbrev ports : Result String CachedVouchers → Result String ℤ → Ports ℕ
ports cache total = record {
  load_year = λ t y w. (cache, w);
  save_year = λ t y vs n at w. (ok tt, suc w);
  remote_total = λ t y w. (total, w);
  fetch_year = λ t y w. (err "closed", w);
  now = λ w. (pos 15, w);
}

abbrev fresh_set : VoucherSet
fresh_set = record {
  vouchers = voucher ∷ [];
  freshness = fresh;
  as_of = pos 10;
  reason = verified 1 (pos 10);
}

abbrev unverified_set : VoucherSet
unverified_set = record {
  vouchers = voucher ∷ [];
  freshness = unverified;
  as_of = pos 10;
  reason = unchecked 1 (pos 10);
}

served : vouchers_of (ports (ok stored) (ok (pos 1))) (pos 100) "t" 1 0 ≡ (ok fresh_set, 0)
unfolding vouchers_of judge serve assess sub_time ◌-ℤ◌
served = refl

uncounted : vouchers_of (ports (ok stored) (err "down")) (pos 100) "t" 1 0 ≡ (ok unverified_set, 0)
unfolding vouchers_of judge serve assess sub_time ◌-ℤ◌
uncounted = refl

unread :
    vouchers_of (ports (err "down") (ok (pos 1))) (pos 100) "t" 1 0 ≡ (err (read_cache "down"), 0)
unfolding vouchers_of
unread = refl

reads_only :
    (c : Result String CachedVouchers) (n : Result String ℤ) → ReadsOnly (ports c n) (λ w. w)
reads_only c n = record {
  load = λ t y w. refl;
  count = λ t y w. refl;
  fetch = λ t y w. refl;
  clock = λ w. refl;
}

not_saving : (text : String) → read_cache "down" ≢ ServiceError.save_failed text
not_saving text e = cc

fresh-is_counted_example :
    (v : ℕ) × Reached (ports (ok stored) (ok (pos 1))) "t" 1 0 v
    × (◌≡◌ {A = Result String ℤ} (ok (pos 1)) (ok (pos 1)))
fresh-is_counted_example =
    fresh-is_counted (ports (ok stored) (ok (pos 1))) (pos 100) "t" 1 0 0 fresh_set served refl

abbrev state : ℤ → VoucherCacheState
state n = record { cached_count = 1; remote_total = n; synced_at = pos 10; fetch_version = 3 }
