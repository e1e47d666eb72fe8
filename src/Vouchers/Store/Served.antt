-- ===== src/Vouchers/Store/Served.antt =====
-- The voucher service over the stored cache.
use cobalt_dingo.Prelude.{
  ℕ, ◌≡◌, refl, sym, ap, ◌∙◌, Bool, true, false, List, String, length, Result, ok, err, wrap_err,
  All,
}
use cobalt_dingo.Prelude.Int.{ℤ, pos, ◌≤ℤ◌}
use cobalt_dingo.Prelude.Counts.{count, count-length}
use cobalt_dingo.Dates.{Instant, is_zero, sub_time}
use cobalt_dingo.Ledger.{Voucher}
use cobalt_dingo.Vouchers.{fresh, VoucherSet, CacheFreshness, Reason}
use cobalt_dingo.Vouchers.Assess.{VoucherCacheState, assess, voucher_fetch_version}
use cobalt_dingo.Vouchers.Service.{CachedVouchers, Ports, vouchers_of, judge, serve}
use cobalt_dingo.Vouchers.Verified.{assess-fresh_iff}
use cobalt_dingo.Vouchers.Store.{CacheTables, Encoding, StoreError, save_year, load_year}
use cobalt_dingo.Vouchers.Store.Rows.{AllDistinct, HasDate}
use cobalt_dingo.Vouchers.Store.Saved.{Law, IsStorable, save_year-load_year}

-- What is left of an action on the tables once it has ended.
abbrev pub keep_tables : {A T W : Type 0} → T → Result String A × W → Result String A × (T × W)
keep_tables t (r, w) = (r, (t, w))

abbrev pub committed : {T W : Type 0} → T → W → Result String T → Result String (Unit {0}) × (T × W)
committed t w (ok t1) = (ok tt, (t1, w))
committed t w (err e) = (err e, (t, w))

abbrev state_of : CachedVouchers → VoucherCacheState
state_of stored = record {
  cached_count = length stored.vouchers;
  remote_total = pos (length stored.vouchers);
  synced_at = stored.synced_at;
  fetch_version = stored.fetch_version;
}

abbrev set_of : CachedVouchers → CacheFreshness → Reason → VoucherSet
set_of stored f why = record {
  vouchers = stored.vouchers;
  freshness = f;
  as_of = stored.synced_at;
  reason = why;
}

module _ {J W : Type 0} (enc : Encoding J) (text : StoreError → String) where
  -- The cache of these ports is the stored one; the ERP and the clock are those given.
  abbrev pub over_store : Ports W → Ports (CacheTables J × W)
  over_store ports = record {
    load_year = λ tenant year (t, w). (wrap_err text (load_year enc tenant year t), (t, w));
    save_year = λ tenant year vouchers total at_time (t, w).
        committed t w (wrap_err text (save_year enc tenant year vouchers total at_time t));
    remote_total = λ tenant year (t, w). keep_tables t (ports.remote_total tenant year w);
    fetch_year = λ tenant year (t, w). keep_tables t (ports.fetch_year tenant year w);
    now = λ (t, w). let (at_time, w1) = ports.now w in (at_time, (t, w1));
  }

  -- A set that the policy finds fresh is returned as it is.
  served_fresh :
      (ports : Ports W) (max_age : ℤ) (tenant : String) (year : ℕ) (stored : CachedVouchers)
      (t : CacheTables J) (w w1 w2 : W) (at_time : Instant) (why : CacheFreshness × Reason)
      → assess (state_of stored) at_time max_age ≡ why
      → load_year enc tenant year t ≡ ok stored
      → ports.remote_total tenant year w ≡ (ok (pos (length stored.vouchers)), w1)
      → ports.now w1 ≡ (at_time, w2)
      → why.0 ≡ fresh
      → vouchers_of (over_store ports) max_age tenant year (t, w)
        ≡ (ok (set_of stored fresh why.1), (t, w2))
  unfolding vouchers_of judge serve
  served_fresh ports max_age tenant year stored t w w1 w2 at_time why is_why loaded total clock e =
      rw (loaded, total, clock, is_why, e) refl

  -- Vouchers of this year, each with a number that an int32 holds, a date that parses and rows of
  -- one currency, no two of them of one series and number, are saved by `SaveYear` for a registered
  -- tenant without an error. `Vouchers` over the stored cache then serves them as fresh, each as
  -- often as it was saved and as of the time of the save as the TIMESTAMPTZ column keeps it, and
  -- changes neither the tables nor the ERP's side beyond the count and the clock, if the ERP counts
  -- as many vouchers, that time is not the zero time and no older than allowed, and the JSON of
  -- rows decodes to them.
  pub save_year-vouchers_of :
      (law : Law enc) (ports : Ports W) (max_age : ℤ) (tenant : String) (year : ℕ)
      (vouchers : List Voucher) (total : ℤ) (synced_at at_time : Instant) (t : CacheTables J)
      (w w1 w2 : W)
      → t.registered tenant ≡ true
      → All HasDate vouchers
      → All (IsStorable year) vouchers
      → AllDistinct vouchers
      → is_zero (enc.timestamptz synced_at) ≡ false
      → ports.remote_total tenant year w ≡ (ok (pos (length vouchers)), w1)
      → ports.now w1 ≡ (at_time, w2)
      → sub_time at_time (enc.timestamptz synced_at) ≤ℤ max_age
      → (t1 : CacheTables J) × (set : VoucherSet) × (save_year enc tenant year vouchers total
            synced_at t
          ≡ ok t1)
        × (vouchers_of (over_store ports) max_age tenant year (t1, w) ≡ (ok set, (t1, w2)))
        × (set.freshness ≡ fresh)
        × (set.as_of ≡ enc.timestamptz synced_at)
        × ((p : Voucher → Bool) → count p set.vouchers ≡ count p vouchers)
  save_year-vouchers_of law ports max_age tenant year vouchers total synced_at at_time t w w1 w2
        known dates plain distinct synced counted clock young =
      let (t1, loaded, saved, reread, counts) =
        save_year-load_year enc law tenant year vouchers total synced_at t known dates plain
          distinct in
      let stored : CachedVouchers = record {
        vouchers = loaded;
        synced_at = enc.timestamptz synced_at;
        fetch_version = voucher_fetch_version;
      } in
      let same : length loaded ≡ length vouchers =
        sym (count-length loaded) ∙ counts (λ x. true) ∙ count-length vouchers in
      let total1 : ports.remote_total tenant year w ≡ (ok (pos (length loaded)), w1) =
        counted ∙ ap (λ n. (ok (pos n), w1)) (sym same) in
      let why = assess (state_of stored) at_time max_age in
      let is_fresh : why.0 ≡ fresh =
        (assess-fresh_iff (state_of stored) at_time max_age).1 (synced, refl, refl, young) in
      (
        t1,
        set_of stored fresh why.1,
        saved,
        served_fresh ports max_age tenant year stored t1 w w1 w2 at_time why refl reread total1
            clock is_fresh,
        refl,
        refl,
        counts,
      )
