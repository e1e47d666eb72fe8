-- ===== src/Vouchers/Store/Tests.antt =====
-- A year of two vouchers, saved over a voucher that is gone, read back and served.
use cobalt_dingo.Prelude.{
  ℕ, ◌*◌, ◌/◌, ◌^◌, ◌<◌, ◌≡◌, true, str_eq, str_eq_refl, refl, All, arith, Bool, false, List, [],
  ◌∷◌, String, ok, err,
}
use cobalt_dingo.Prelude.Int.{ℤ, pos, negsuc, ◌-ℤ◌}
use cobalt_dingo.Prelude.Int32.{InRange}
use cobalt_dingo.Prelude.Counts.{count}
use cobalt_dingo.Dates.{Instant, sub_time, parse_date}
use cobalt_dingo.Money.{Money}
use cobalt_dingo.Ledger.{VoucherRow, Voucher}
use cobalt_dingo.Vouchers.{fresh, VoucherSet}
use cobalt_dingo.Vouchers.Assess.{voucher_fetch_version}
use cobalt_dingo.Vouchers.Service.{Ports, vouchers_of}
use cobalt_dingo.Vouchers.Store.{
  CachedRow, StoredVoucher, CacheTables, Encoding, StoreError, save_year, load_year,
}
use cobalt_dingo.Vouchers.Store.Rows.{AllDistinct, HasDate}
use cobalt_dingo.Vouchers.Store.Saved.{IsStorable, save_year-load_year}
use cobalt_dingo.Vouchers.Store.Served.{over_store, save_year-vouchers_of}

-- A column that keeps the whole microseconds.
abbrev whole_micros : Instant → Instant
whole_micros (pos n) = pos (n / 1000 * 1000)
whole_micros (negsuc n) = negsuc (n / 1000 * 1000)

abbrev plain : Encoding (List CachedRow)
plain = record {
  encode = λ rows. rows;
  decode = λ rows. ok rows;
  precedes = λ a b. false;
  timestamptz = whole_micros;
}

abbrev sek : ℤ → Money
sek n = record { minor_units = n; currency = "SEK" }

abbrev row : VoucherRow
row = record {
  account = 1930;
  debit = sek (pos 100);
  credit = sek (pos 0);
  description = "";
  cost_center = "";
  project = "";
}

abbrev voucher : ℤ → Voucher
voucher n = record {
  series = "A";
  number = n;
  description = "";
  transaction_date = "2026-01-02";
  year = 5;
  rows = row ∷ [];
}

abbrev vouchers : List Voucher
vouchers = voucher (pos 2) ∷ voucher (pos 1) ∷ []

abbrev gone : StoredVoucher (List CachedRow)
gone = record {
  tenant_id = "t";
  year_id = pos 5;
  series = "A";
  number = pos 9;
  transaction_date = "2026-01-02";
  description = "";
  rows = [];
}

abbrev tables : CacheTables (List CachedRow)
tables = record { vouchers = gone ∷ []; syncs = []; registered = λ t. str_eq t "t" }

is_registered : tables.registered "t" ≡ true
is_registered = str_eq_refl "t"

dates : All HasDate vouchers
unfolding parse_date
dates = ((_, refl), ((_, refl), tt))

fits : (n : ℕ) → n < 2 ^ 31 → InRange (pos n)
fits n h = record { low = omega arith; high = h }

storable : All (IsStorable 5) vouchers
storable =
    ((refl, fits 2 (omega arith), (refl, tt)), ((refl, fits 1 (omega arith), (refl, tt)), tt))

distinct : AllDistinct vouchers
distinct = ((refl, tt), (tt, tt))

save_year-load_year_example :
    (t1 : CacheTables (List CachedRow)) × (loaded : List Voucher) × (save_year plain "t" 5 vouchers
        (pos 2)
        (pos 1500)
        tables
      ≡ ok t1)
    × (load_year plain "t" 5 t1
        ≡ ok (record {
          vouchers = loaded;
          synced_at = pos 1000;
          fetch_version = voucher_fetch_version;
        }))
    × ((p : Voucher → Bool) → count p loaded ≡ count p vouchers)
save_year-load_year_example =
    save_year-load_year plain (λ rows. refl) "t" 5 vouchers (pos 2) (pos 1500) tables is_registered
      dates storable distinct

-- An ERP that counts two vouchers.
abbrev erp : Ports (Unit {0})
erp = record {
  load_year = λ t y w. (err "none", w);
  save_year = λ t y vs n at w. (err "none", w);
  remote_total = λ t y w. (ok (pos 2), w);
  fetch_year = λ t y w. (err "closed", w);
  now = λ w. (pos 1600, w);
}

abbrev text : StoreError → String
text e = "cache"

save_year-vouchers_of_example :
    (t1 : CacheTables (List CachedRow)) × (set : VoucherSet) × (save_year plain "t" 5 vouchers
        (pos 2)
        (pos 1500)
        tables
      ≡ ok t1)
    × (vouchers_of (over_store plain text erp) (pos 700) "t" 5 (t1, tt) ≡ (ok set, (t1, tt)))
    × (set.freshness ≡ fresh)
    × (set.as_of ≡ pos 1000)
    × ((p : Voucher → Bool) → count p set.vouchers ≡ count p vouchers)
unfolding sub_time ◌-ℤ◌
save_year-vouchers_of_example =
    save_year-vouchers_of plain text (λ rows. refl) erp (pos 700) "t" 5 vouchers (pos 2) (pos 1500)
      (pos 1600) tables tt tt tt is_registered dates storable distinct refl refl refl (omega arith)
