-- ===== src/Receipts.antt =====
-- The collection of receipts from mail: internal/receipts/receipts/{forwarded,router,collector,
-- scope}.go. Texts are lists of code points. The Unicode tables of lower case and of equal folding
-- are parameters, as are the mail server and the delivery.
pub mod Subject
pub mod Router
pub mod Scope
pub mod Collector
mod Tests
use cobalt_dingo.Prelude.{ℕ, map, List}
use cobalt_dingo.Prelude.Text.{Text}
use cobalt_dingo.Dates.{Instant}

-- `unicode.ToLower`, and the least member of a code point's case folding orbit.
pub record Unicode : Type 0 where
  pub lower : ℕ → ℕ
  pub fold : ℕ → ℕ

-- The fields of `Mail` that decide about it.
pub record Mail : Type 0 where
  pub uid : ℕ
  pub message_id : Text
  pub from : Text
  pub subject : Text
  pub date : Instant

abbrev pub to_lower : Unicode → Text → Text
to_lower u = map u.lower
