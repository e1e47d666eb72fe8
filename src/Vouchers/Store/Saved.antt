-- ===== src/Vouchers/Store/Saved.antt =====
-- A year saved with `SaveYear`, as `LoadYear` reads it back.
use cobalt_dingo.Prelude.{
  ℕ, ◌≡◌, refl, sym, some, none, ◌++◌, ap, ap₂, ◌∙◌, Bool, true, List, [], ◌∷◌, map, String,
  Bool-cases, inl, inr, if◌then◌else◌, ok, ◌>>=◌, All,
}
use cobalt_dingo.Prelude.Int.{ℤ}
use cobalt_dingo.Prelude.Int32.{InRange, wrap32_of_InRange}
use cobalt_dingo.Prelude.Counts.{count}
use cobalt_dingo.Dates.{Instant}
use cobalt_dingo.Ledger.{VoucherRow, Voucher}
use cobalt_dingo.Vouchers.Assess.{voucher_fetch_version}
use cobalt_dingo.Vouchers.Store.{
  StoredVoucher, CachedRow, SyncRow, CacheTables, Encoding, to_cached, from_cached, sync_of,
  find_sync, upsert_sync, delete_year, to_stored, store_all, save_year, year_column, sync_row,
  record_sync, sort_stored, from_stored, decode_all, with_sync, load_year,
}
use cobalt_dingo.Vouchers.Store.Rows.{
  AllDistinct, AllDistinct-keys, FitsColumn, HasDate, IsAbsent, in_self, store_all-distinct,
  in_year-written, deleted-IsAbsent, sorted_rows,
}

-- What is read from the JSON of some rows is what was written.
abbrev pub Law : {J : Type 0} → Encoding J → Type 0
Law enc = (rows : List CachedRow) → enc.decode (enc.encode rows) ≡ ok rows

-- One currency for the two amounts of a row, since the table keeps one.
abbrev pub IsPlain : VoucherRow → Type 0
IsPlain r = r.credit.currency ≡ r.debit.currency

-- A voucher that the table can hold as it is: of the year, with a number that an int32 holds.
abbrev pub IsStorable : ℕ → Voucher → Type 0
IsStorable year v = (v.year ≡ year) × InRange v.number × All IsPlain v.rows

from_to_cached : (r : VoucherRow) → IsPlain r → from_cached (to_cached r) ≡ r
from_to_cached r h =
    ap (λ c. record r { credit = record { minor_units = r.credit.minor_units; currency = c } })
      (sym h)

rows_kept :
    (rows : List VoucherRow) → All IsPlain rows → map from_cached (map to_cached rows) ≡ rows
rows_kept [] hs = refl
rows_kept (r ∷ rows) (h, hs) = ap₂ (λ x xs. x ∷ xs) (from_to_cached r h) (rows_kept rows hs)

found_sync :
    (s : SyncRow) (syncs : List SyncRow)
    → find_sync s.tenant_id s.year_id (upsert_sync s syncs) ≡ some s
unfolding find_sync upsert_sync
found_sync s [] = ap (λ b. if b then some s else none) (in_self s.tenant_id s.year_id)
found_sync s (x ∷ syncs) =
    let here = λ (rest : List SyncRow). find_sync s.tenant_id s.year_id rest in
    elim (Bool-cases (sync_of s.tenant_id s.year_id x)) [
      | inl e ↦
          ap (λ b. here (if b then s ∷ syncs else x ∷ upsert_sync s syncs)) e
          ∙ ap (λ b. if b then some s else here syncs) (in_self s.tenant_id s.year_id)
      | inr e ↦
          ap (λ b. here (if b then s ∷ syncs else x ∷ upsert_sync s syncs)) e
          ∙ ap (λ b. if b then some x else here (upsert_sync s syncs)) e
          ∙ found_sync s syncs
    ]

module _ {J : Type 0} (enc : Encoding J) (law : Law enc) (tenant : String) (year : ℕ) where
  abbrev stored : Voucher → StoredVoucher J
  stored = to_stored enc tenant year

  decoded :
      (v : Voucher)
      → IsStorable year v
      → from_stored enc year (stored v) (enc.decode (stored v).rows) ≡ ok v
  decoded v (y, fits, plain) =
      ap (from_stored enc year (stored v)) (law (map to_cached v.rows))
      ∙ ap
          (λ k.
            ok
              (record v { number = k; year = year; rows = map from_cached (map to_cached v.rows) }))
          (wrap32_of_InRange v.number fits)
      ∙ ap₂ (λ n rows. ok (record v { year = n; rows = rows })) (sym y) (rows_kept v.rows plain)

  fits_of : (v : Voucher) → IsStorable year v → InRange v.number
  fits_of v (y, fits, plain) = fits

  storable-FitsColumn :
      (vouchers : List Voucher) → All (IsStorable year) vouchers → All FitsColumn vouchers
  storable-FitsColumn [] hs = tt
  storable-FitsColumn (v ∷ vouchers) (h, hs) =
      (wrap32_of_InRange v.number (fits_of v h), storable-FitsColumn vouchers hs)

  decoded_all :
      (vouchers : List Voucher)
      → All (IsStorable year) vouchers
      → decode_all enc year (map stored vouchers) ≡ ok vouchers
  unfolding decode_all
  decoded_all [] hs = refl
  decoded_all (v ∷ vouchers) (h, hs) =
      ap (λ r. r >>= λ x. decode_all enc year (map stored vouchers) >>= λ xs. ok (x ∷ xs))
        (decoded v h)
      ∙ ap (λ r. r >>= λ xs. ok (v ∷ xs)) (decoded_all vouchers hs)

  delete_year-IsAbsent :
      (vouchers : List Voucher) (rows : List (StoredVoucher J))
      → All
          (λ v. IsAbsent enc tenant year v (delete_year enc tenant (year_column year) rows))
          vouchers
  delete_year-IsAbsent [] rows = tt
  delete_year-IsAbsent (v ∷ vouchers) rows =
      (deleted-IsAbsent enc tenant year v rows, delete_year-IsAbsent vouchers rows)

  -- Vouchers of this year, each with a number that an int32 holds, a date that parses and rows of
  -- one currency, no two of them of one series and number, are saved by `SaveYear` for a registered
  -- tenant without an error, and `LoadYear` then returns these vouchers, each as often as it was
  -- saved, with the time of the save as the TIMESTAMPTZ column keeps it and the version of this
  -- build, if the JSON of rows decodes to them.
  pub save_year-load_year :
      (vouchers : List Voucher) (total : ℤ) (at_time : Instant) (t : CacheTables J)
      → t.registered tenant ≡ true
      → All HasDate vouchers
      → All (IsStorable year) vouchers
      → AllDistinct vouchers
      → (t1 : CacheTables J) × (loaded : List Voucher) × (save_year enc tenant year vouchers total
            at_time t
          ≡ ok t1)
        × (load_year enc tenant year t1
            ≡ ok (record {
              vouchers = loaded;
              synced_at = enc.timestamptz at_time;
              fetch_version = voucher_fetch_version;
            }))
        × ((p : Voucher → Bool) → count p loaded ≡ count p vouchers)
  unfolding save_year load_year
  save_year-load_year vouchers total at_time t known dates plain distinct =
      let kept = delete_year enc tenant (year_column year) t.vouchers in
      let (sorted, e, counts, plain1) =
        sorted_rows enc tenant year (IsStorable year) vouchers plain in
      let t1 : CacheTables J = record t {
        vouchers = kept ++ map stored vouchers;
        syncs = upsert_sync (sync_row enc tenant year total at_time) t.syncs;
      } in
      let row = sync_row enc tenant year total at_time in
      (
        t1,
        sorted,
        ap (λ b. store_all enc b tenant year vouchers kept >>= record_sync enc b t row) known
            ∙ ap (λ r. r >>= record_sync enc true t row)
                (store_all-distinct enc tenant year vouchers kept dates
                  (AllDistinct-keys vouchers (storable-FitsColumn vouchers plain) distinct)
                  (delete_year-IsAbsent vouchers t.vouchers)),
        ap
              (λ xs. decode_all enc year (sort_stored enc xs) >>= λ vs.
                ok (with_sync enc (find_sync tenant (year_column year) t1.syncs) vs))
              (in_year-written enc tenant year t.vouchers vouchers)
            ∙ ap
                (λ xs. decode_all enc year xs >>= λ vs.
                  ok (with_sync enc (find_sync tenant (year_column year) t1.syncs) vs))
                e
            ∙ ap
                (λ r.
                  r >>= λ vs. ok (with_sync enc (find_sync tenant (year_column year) t1.syncs) vs))
                (decoded_all sorted plain1)
            ∙ ap (λ o. ok (with_sync enc o sorted))
                (found_sync (sync_row enc tenant year total at_time) t.syncs),
        counts,
      )
