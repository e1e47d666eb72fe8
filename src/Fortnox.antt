-- ===== src/Fortnox.antt =====
-- The Fortnox client: `GetAllPages` of internal/fortnox/client.go and the counts of total.go. The
-- request and its answer, the query of a URL and the decoding of JSON are parameters.
--
-- The loop over the pages has no bound of its own. It has fuel here, and says when that runs out.
pub mod Pages
mod Tests
use cobalt_dingo.Prelude.{
  ℕ, zero, suc, Bool, ◌||◌, Option, none, some, List, [], ◌∷◌, ◌++◌, String, if◌then◌else◌, Result,
  ok, err,
}
use cobalt_dingo.Prelude.Int.{ℤ, pos, leb_ℤ, eqb_ℤ}
use cobalt_dingo.Prelude.Actions.{Action, pure, raise, attempt, and_then}

-- `page_url` is the base URL with its `page` set, `total_pages` the `@TotalPages` of an answer, and
-- `total_resources` its `@TotalResources`, which may be absent.
pub record Api (R W : Type 0) : Type 0 where
  pub page_url : String → ℕ → Result String String
  pub filter_url : String → String → String
  pub get : String → Action W String R
  pub total_pages : R → Result String ℤ
  pub total_resources : R → Result String (Option ℤ)

pub data ClientError : Type 0 where
  bad_url : String → ClientError
  bad_page bad_meta : ℕ → String → ClientError
  not_counted bad_count : String → ClientError
  no_total : ClientError
  filter_failed : String → String → ClientError → ClientError
  out_of_fuel : ClientError

abbrev pub supplier_invoice_filters : List String
supplier_invoice_filters =
    "unpaid" ∷ "unpaidoverdue" ∷ "unbooked" ∷ "pendingpayment" ∷ "authorizepending" ∷ "fullypaid"
    ∷ "cancelled" ∷ []

abbrev pub customer_invoice_filters : List String
customer_invoice_filters = "unpaid" ∷ "unpaidoverdue" ∷ "unbooked" ∷ "fullypaid" ∷ "cancelled" ∷ []

module _ {R W : Type 0} (api : Api R W) where
  -- The test at the end of a round.
  abbrev pub is_last : ℕ → ℤ → Bool
  is_last page total = leb_ℤ total (pos page) || eqb_ℤ total (pos 0)

  abbrev pub after_page :
      ℕ → List R → Action W ClientError (List R) → Result String ℤ → Action W ClientError (List R)
  after_page page pages next (err e) w = (err (bad_meta page e), w)
  after_page page pages next (ok total) w =
      let rest = next w in if is_last page total then (ok pages, w) else rest

  abbrev pub after_get :
      ℕ
      → List R
      → (List R → Action W ClientError (List R))
      → Result String R × W
      → Result ClientError (List R) × W
  after_get page pages next (err e, w) = (err (bad_page page e), w)
  after_get page pages next (ok raw, w) =
      after_page page (pages ++ raw ∷ []) (next (pages ++ raw ∷ [])) (api.total_pages raw) w

  abbrev pub get_page :
      ℕ
      → List R
      → (List R → Action W ClientError (List R))
      → Result String String
      → Action W ClientError (List R)
  get_page page pages next (err e) w = (err (bad_url e), w)
  get_page page pages next (ok url) w = after_get page pages next (api.get url w)

  -- The loop, from one page on.
  unfoldable pub get_pages : ℕ → String → ℕ → List R → Action W ClientError (List R)
  get_pages zero base page pages w = (err out_of_fuel, w)
  get_pages (suc fuel) base page pages w =
      get_page page pages (get_pages fuel base (suc page)) (api.page_url base page) w

  -- `GetAllPages`
  abbrev pub get_all_pages : ℕ → String → Action W ClientError (List R)
  get_all_pages fuel base = get_pages fuel base 1 []

  abbrev pub counted : Result String (Option ℤ) → Result ClientError ℤ
  counted (err e) = err (bad_count e)
  counted (ok none) = err no_total
  counted (ok (some n)) = ok n

  -- `TotalResources`
  unfoldable pub total_of : String → Action W ClientError ℤ
  total_of url = and_then (attempt (api.get url)) (λ r. elim r [
    | err e ↦ raise (not_counted e)
    | ok raw ↦ λ w. (counted (api.total_resources raw), w)
  ])

  -- `invoiceStateCounts`, each filter with its count.
  unfoldable pub state_counts : String → List String → Action W ClientError (List (String × ℤ))
  state_counts path [] = pure []
  state_counts path (f ∷ filters) = and_then (attempt (total_of (api.filter_url path f))) (λ r.
      elim r [
        | err e ↦ raise (filter_failed path f e)
        | ok n ↦ and_then (state_counts path filters) (λ counts. pure ((f, n) ∷ counts))
      ])

  -- `SupplierInvoiceStateCounts`
  abbrev pub supplier_invoice_state_counts : Action W ClientError (List (String × ℤ))
  supplier_invoice_state_counts = state_counts "/3/supplierinvoices" supplier_invoice_filters

  -- `CustomerInvoiceStateCounts`
  abbrev pub customer_invoice_state_counts : Action W ClientError (List (String × ℤ))
  customer_invoice_state_counts = state_counts "/3/invoices" customer_invoice_filters
