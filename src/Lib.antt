-- ===== src/Lib.antt =====
-- cobalt-dingo: bookkeeping insight and supplier payments on top of the Fortnox ERP, in Go.
--
-- The parts that are modelled, with the files of the repository and of this library:
--   Money, Ledger   internal/domain/money.go, ledger.go, invoice.go: the records that the rest reads
--   Dates           Go's time: instants, `time.Parse` of a date, `Sub`, whole days
--   Vouchers        internal/domain/voucher_cache.go (`Assess`) and voucher_service.go (`Vouchers`,
--                   `refresh`): a year of vouchers from the cache or from the ERP;
--                   internal/adapter/postgres/voucher_cache.go (Vouchers/Store)
--   Overview        internal/domain/financial_overview.go: `BuildFinancialOverview` is
--                   `build_overview`, made of its loops; `WithAgeing` is `with_ageing`
--   Batches         internal/domain/batch.go, batch_service.go and
--                   internal/adapter/postgres/batch_repo.go (Batches/Repo)
--   Unbooked        internal/domain/unbooked_watch.go and
--                   internal/adapter/postgres/unbooked_store.go
--   Invoices        internal/domain/invoice.go: the queue and the lookup of accounts
--   Payments        internal/payment/pain001.go: `GeneratePAIN001` is `generate`
--   InvoiceStates   internal/domain/invoice_states.go
--   Integration     internal/integration/resolve.go
--   Analysis        internal/analyst/aggregator.go and internal/domain/account_activity.go
--   Statements      internal/statements/statement.go: `CheckBalance` is `check_balance`, and
--                   `parseDecimalMinor` is `parse_decimal_minor` (Statements/Decimal);
--                   internal/statements/camt053.go (Statements/Camt)
--   Tokens          internal/adapter/fortnox/refreshing_token_store.go: `Load` is `load_token`;
--                   internal/adapter/postgres/token_store.go (Tokens/Stored)
--   Secrets         internal/crypto/cipher.go: `Seal`, `Open` and `Fingerprint`
--   Receipts        internal/receipts/receipts/forwarded.go, router.go, scope.go, collector.go
--   Review          internal/review/review.go: `ParseFindings` and `Blocking`
--   Fortnox         internal/fortnox/client.go: `GetAllPages`, and total.go
--   Auth            internal/auth/oauth_nonce.go (Auth, Auth/State): the state and the nonce of an
--                   authorization; session.go and middleware.go: `NewSession` (Auth/Login), tenant
--                   keys (Auth/Keys) and cookies (Auth/Cookies); `ResolveOwner` of
--                   internal/adapter/postgres/user_directory.go (Auth/Owners)
--   Config          internal/config/config.go: `Load` is `load`, `LoadAllModes` is `load_all_modes`
--   Tenants         internal/adapter/postgres/tenant_repo.go: `ListByPrefix` and `escapeLike`, with
--                   the queries of queries/tenants.sql
--   Connect         internal/ui/fortnox_connect.go: the handlers by which a user connects, chooses
--                   and disconnects a company
--   Tools           internal/mcp/tools_ap.go (Tools/Payable), tools_ar.go (Tools/Receivable) and
--                   tools_analytics.go (Tools/Periods, Tools/Ranks), with `latestYearID` of
--                   tools_gl.go
--   Clitoken        internal/clitoken/select.go and year.go
--   Suppliers       internal/adapter/fortnox/supplier_cache.go
--   Words           Go's `strings` on strings; Prelude/Text has it on code points
-- Prelude holds what they share: Boolean tests, lists and their counts, results, texts, integers,
-- the wraps of an int64 and an int32, and actions that may fail on a world.
--
-- The overview is built from a `VoucherSet`, which the voucher service serves with its freshness.
-- The payment file is made of the invoices that the lookup enriched, and a batch carries its bytes.
-- The services reach the outside through ports: records of actions on a world that nothing is known
-- of, so that a theorem holds for every cache, bank, ERP, clock and lock. Vouchers/Store/Served puts
-- the stored cache under the voucher service. The token store seals with Secrets, and the statement
-- that the parser of camt.053 makes is the one that `check_balance` reads. The handlers of Connect
-- check the state and the nonce of Auth, take the companies that Config allows, derive the keys of
-- Auth/Keys and list the tenants of Tenants; the session that a callback leaves is the one from
-- which every later request derives its tenant key. The tools group with Analysis/Groups.
--
-- How the code is rendered. An error that a caller tests first is a `Result`; the texts of errors
-- and reasons are data types of what they name. Identifying numbers are natural numbers, but for
-- those of vouchers. A sum of int64 amounts wraps (`wrap64`), as do the numbers that the voucher
-- cache converts to the int32 of a column (`wrap32`); an instant is a signed number of
-- nanoseconds since the year 1, a duration saturates as `Sub` does. `int(d.Hours() / 24)` is the
-- exact quotient, without the rounding of float64; the exchange rates of a batch are any type;
-- the floats and number formats of a payment file are parameters. A Go map is an association
-- list, a function or a list of distinct keys; its random order is the subject of Overview/Order.
-- `sort.Slice` is an insertion sort on distinct keys. Loops are structural recursion, but for two
-- on fuel. The one that strips the prefixes of a subject has fuel for one pass more than the
-- subject has code points, and each pass that goes on makes the subject shorter. The one over the
-- pages of a collection ends when the server says so: its fuel is an argument, and a round for
-- each page that the server names is enough. A store that a handler of Connect or of Auth/Owners
-- writes to is its rows, with the calls that fail as an argument, since a failed call changes
-- nothing. What a TIMESTAMPTZ column gives back of an instant, `LIKE`, the collation of names,
-- JSON, base64, the keyed hash, the case of letters, `sort.Slice` and float64 are parameters,
-- with what is relied on of them as the hypotheses of a theorem.
--
-- Not modelled: failures of a database beyond the constraints that an INSERT meets in the batch
-- repository and the foreign keys to the tenants of the voucher cache and the token store, such
-- as a text with a NUL, which Postgres refuses; invoice numbers beyond the int32 of a table; the
-- fields of the overview on unbooked and open obligations, which other code sets; the wording of
-- alerts and reasons; the marshalling and the decoding of XML and JSON; the other HTTP handlers,
-- templates, the requests of the Fortnox client, the exchange with the identity provider, IMAP
-- and SMTP, which are input and output; the derivation of keys and the hash of a transaction; the
-- rubric and the acceptances of a review; calls of the supplier cache that overlap.
pub mod Analysis
pub mod Auth
pub mod Batches
pub mod Clitoken
pub mod Config
pub mod Connect
pub mod Dates
pub mod Fortnox
pub mod Integration
pub mod InvoiceStates
pub mod Invoices
pub mod Ledger
pub mod Money
pub mod Overview
pub mod Payments
pub mod Prelude
pub mod Receipts
pub mod Review
pub mod Secrets
pub mod Statements
pub mod Suppliers
pub mod Tenants
pub mod Tokens
pub mod Tools
pub mod Unbooked
pub mod Vouchers
pub mod Words
