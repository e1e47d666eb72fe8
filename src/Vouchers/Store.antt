-- ===== src/Vouchers/Store.antt =====
-- The stored voucher cache: internal/adapter/postgres/voucher_cache.go, over the tables
-- `fortnox_voucher_cache` and `fortnox_voucher_sync`. A date is kept as the text that it parses from
-- and prints to. The JSON of the rows and the collation of the series are parameters; numbers are
-- converted to the int32 of a column. A transaction that fails leaves the tables as they were;
-- what else a database can fail with is not modelled.
pub mod Rows
pub mod Saved
pub mod Served
mod Tests
use cobalt_dingo.Prelude.{
  ℕ, Bool, true, false, not, ◌&&◌, ◌||◌, Option, none, some, List, [], ◌∷◌, ◌++◌, map, select,
  String, str_eq, ◌==◌, ltb, if◌then◌else◌, Result, ok, err, ◌>>=◌,
}
use cobalt_dingo.Prelude.Int.{ℤ, pos, eqb_ℤ, ltb_ℤ}
use cobalt_dingo.Prelude.Int32.{wrap32}
use cobalt_dingo.Dates.{Instant, parse_date}
use cobalt_dingo.Ledger.{VoucherRow, Voucher}
use cobalt_dingo.Vouchers.Assess.{voucher_fetch_version}
use cobalt_dingo.Vouchers.Service.{CachedVouchers}

-- `cachedRow`: one currency for both amounts.
pub record CachedRow : Type 0 where
  pub account : ℕ
  pub debit_minor : ℤ
  pub credit_minor : ℤ
  pub currency : String
  pub description : String
  pub cost_center : String
  pub project : String

-- A row of `fortnox_voucher_cache`, with its JSON.
pub record StoredVoucher (J : Type 0) : Type 0 where
  pub tenant_id : String
  pub year_id : ℤ
  pub series : String
  pub number : ℤ
  pub transaction_date : String
  pub description : String
  pub rows : J

-- A row of `fortnox_voucher_sync`.
pub record SyncRow : Type 0 where
  pub tenant_id : String
  pub year_id : ℤ
  pub synced_at : Instant
  pub remote_total : ℤ
  pub fetch_version : ℕ

-- The two tables, and the tenants in `tenants`, which their foreign keys name.
pub record CacheTables (J : Type 0) : Type 0 where
  pub vouchers : List (StoredVoucher J)
  pub syncs : List SyncRow
  pub registered : String → Bool

-- `encoding/json` on the rows, the collation of the database, and the instant that a column of
-- type TIMESTAMPTZ gives back for the one that it is given.
pub record Encoding (J : Type 0) : Type 0 where
  pub encode : List CachedRow → J
  pub decode : J → Result String (List CachedRow)
  pub precedes : String → String → Bool
  pub timestamptz : Instant → Instant

pub data StoreError : Type 0 where
  bad_rows : String → ℤ → String → StoreError
  bad_date : String → ℤ → String → StoreError
  not_cached : String → ℤ → StoreError
  not_recorded : StoreError

abbrev pub to_cached : VoucherRow → CachedRow
to_cached r = record {
  account = r.account;
  debit_minor = r.debit.minor_units;
  credit_minor = r.credit.minor_units;
  currency = r.debit.currency;
  description = r.description;
  cost_center = r.cost_center;
  project = r.project;
}

abbrev pub from_cached : CachedRow → VoucherRow
from_cached r = record {
  account = r.account;
  debit = record { minor_units = r.debit_minor; currency = r.currency };
  credit = record { minor_units = r.credit_minor; currency = r.currency };
  description = r.description;
  cost_center = r.cost_center;
  project = r.project;
}

-- `int32(yearID)`
abbrev pub year_column : ℕ → ℤ
year_column year = wrap32 (pos year)

abbrev pub sync_of : String → ℤ → SyncRow → Bool
sync_of tenant year s = str_eq tenant s.tenant_id && eqb_ℤ year s.year_id

-- `GetVoucherSync`
unfoldable pub find_sync : String → ℤ → List SyncRow → Option SyncRow
find_sync tenant year [] = none
find_sync tenant year (s ∷ syncs) =
    if sync_of tenant year s then some s else find_sync tenant year syncs

-- `UpsertVoucherSync`
unfoldable pub upsert_sync : SyncRow → List SyncRow → List SyncRow
upsert_sync r [] = r ∷ []
upsert_sync r (s ∷ syncs) =
    if sync_of r.tenant_id r.year_id s then r ∷ syncs else s ∷ upsert_sync r syncs

module _ {J : Type 0} (enc : Encoding J) where
  abbrev pub in_year : String → ℤ → StoredVoucher J → Bool
  in_year tenant year v = str_eq tenant v.tenant_id && eqb_ℤ year v.year_id

  -- `DeleteCachedYear`
  abbrev pub delete_year : String → ℤ → List (StoredVoucher J) → List (StoredVoucher J)
  delete_year tenant year = select (λ v. not (in_year tenant year v))

  abbrev pub same_key : StoredVoucher J → StoredVoucher J → Bool
  same_key a b =
      in_year a.tenant_id a.year_id b && (str_eq a.series b.series && eqb_ℤ a.number b.number)

  -- `UpsertCachedVoucher`
  unfoldable pub upsert : StoredVoucher J → List (StoredVoucher J) → List (StoredVoucher J)
  upsert r [] = r ∷ []
  upsert r (x ∷ xs) = if same_key r x then r ∷ xs else x ∷ upsert r xs

  abbrev pub to_stored : String → ℕ → Voucher → StoredVoucher J
  to_stored tenant year v = record {
    tenant_id = tenant;
    year_id = year_column year;
    series = v.series;
    number = wrap32 v.number;
    transaction_date = v.transaction_date;
    description = v.description;
    rows = enc.encode (map to_cached v.rows);
  }

  -- One round of the loop of `SaveYear`, with the parsed date, for a tenant that is `known` or not.
  abbrev pub store_dated :
      Bool
      → Option Instant
      → String
      → ℕ
      → Voucher
      → List (StoredVoucher J)
      → Result StoreError (List (StoredVoucher J))
  store_dated known none tenant year v rows = err (bad_date v.series v.number v.transaction_date)
  store_dated true (some date) tenant year v rows = ok (upsert (to_stored tenant year v) rows)
  store_dated false (some date) tenant year v rows = err (not_cached v.series v.number)

  unfoldable pub store_all :
      Bool
      → String
      → ℕ
      → List Voucher
      → List (StoredVoucher J)
      → Result StoreError (List (StoredVoucher J))
  store_all known tenant year [] rows = ok rows
  store_all known tenant year (v ∷ vouchers) rows =
      store_dated known (parse_date v.transaction_date) tenant year v rows
      >>= store_all known tenant year vouchers

  abbrev pub sync_row : String → ℕ → ℤ → Instant → SyncRow
  sync_row tenant year remote_total synced_at = record {
    tenant_id = tenant;
    year_id = year_column year;
    synced_at = enc.timestamptz synced_at;
    remote_total = wrap32 remote_total;
    fetch_version = voucher_fetch_version;
  }

  -- The sync row, written last.
  abbrev pub record_sync :
      Bool → CacheTables J → SyncRow → List (StoredVoucher J) → Result StoreError (CacheTables J)
  record_sync true t s rows = ok (record t { vouchers = rows; syncs = upsert_sync s t.syncs })
  record_sync false t s rows = err not_recorded

  -- `SaveYear`, with the tables that its transaction commits.
  unfoldable pub save_year :
      String → ℕ → List Voucher → ℤ → Instant → CacheTables J → Result StoreError (CacheTables J)
  save_year tenant year vouchers remote_total synced_at t =
      store_all (t.registered tenant) tenant year vouchers
        (delete_year tenant (year_column year) t.vouchers)
      >>= record_sync (t.registered tenant) t (sync_row tenant year remote_total synced_at)

  -- The order of `ListCachedVouchers`. Dates of this format are ordered as their texts are.
  abbrev pub before : StoredVoucher J → StoredVoucher J → Bool
  before a b =
      if str_eq a.transaction_date b.transaction_date
      then (if str_eq a.series b.series
          then ltb_ℤ a.number b.number
          else enc.precedes a.series b.series)
      else enc.precedes a.transaction_date b.transaction_date

  unfoldable pub insert_stored : StoredVoucher J → List (StoredVoucher J) → List (StoredVoucher J)
  insert_stored r [] = r ∷ []
  insert_stored r (x ∷ xs) = if before x r then x ∷ insert_stored r xs else r ∷ x ∷ xs

  unfoldable pub sort_stored : List (StoredVoucher J) → List (StoredVoucher J)
  sort_stored [] = []
  sort_stored (x ∷ xs) = insert_stored x (sort_stored xs)

  abbrev pub from_stored :
      ℕ → StoredVoucher J → Result String (List CachedRow) → Result StoreError Voucher
  from_stored year r (err e) = err (bad_rows r.series r.number e)
  from_stored year r (ok rows) = ok (record {
    series = r.series;
    number = r.number;
    description = r.description;
    transaction_date = r.transaction_date;
    year = year;
    rows = map from_cached rows;
  })

  -- The loop of `LoadYear`.
  unfoldable pub decode_all : ℕ → List (StoredVoucher J) → Result StoreError (List Voucher)
  decode_all year [] = ok []
  decode_all year (r ∷ stored) = from_stored year r (enc.decode r.rows) >>= λ v.
      decode_all year stored >>= λ vouchers. ok (v ∷ vouchers)

  -- A missing sync row gives the zero values.
  abbrev pub with_sync : Option SyncRow → List Voucher → CachedVouchers
  with_sync none vouchers = record { vouchers = vouchers; synced_at = pos 0; fetch_version = 0 }
  with_sync (some s) vouchers = record {
    vouchers = vouchers;
    synced_at = s.synced_at;
    fetch_version = s.fetch_version;
  }

  -- `LoadYear`
  unfoldable pub load_year : String → ℕ → CacheTables J → Result StoreError CachedVouchers
  load_year tenant year t =
      decode_all year (sort_stored (select (in_year tenant (year_column year)) t.vouchers))
      >>= λ vouchers. ok (with_sync (find_sync tenant (year_column year) t.syncs) vouchers)
