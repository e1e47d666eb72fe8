-- ===== src/Vouchers.antt =====
-- The voucher cache: internal/domain/voucher_cache.go (what may be done with a cached year) and
-- voucher_service.go (serving a year from the cache or from the ERP).
pub mod Assess
pub mod Service
pub mod Verified
pub mod Counted
pub mod Untouched
pub mod Store
mod Tests
use cobalt_dingo.Prelude.{ℕ, List}
use cobalt_dingo.Prelude.Int.{ℤ}
use cobalt_dingo.Dates.{Instant}
use cobalt_dingo.Ledger.{Voucher}

pub data CacheFreshness : Type 0 where
  fresh stale unverified : CacheFreshness

-- The text that travels with a set of vouchers, by what it says; the figures that the text prints
-- are its arguments.
pub data Reason : Type 0 where
  never_synced nothing_to_serve : Reason
  other_version : ℕ → ℕ → Reason
  unchecked : ℕ → Instant → Reason
  fewer_remote more_remote : ℤ → ℕ → Reason
  too_old : ℕ → Reason
  verified : ℕ → Instant → Reason
  unconfirmed_read : ℕ → Reason
  torn_read : ℕ → ℤ → Reason
  fetched : ℕ → Instant → Reason

pub record VoucherSet : Type 0 where
  pub vouchers : List Voucher
  pub freshness : CacheFreshness
  pub as_of : Instant
  pub reason : Reason
