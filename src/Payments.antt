-- ===== src/Payments.antt =====
-- Payment files: internal/payment/pain001.go. A float64 and its operations, and the texts that
-- `fmt` makes of numbers, are parameters. `GeneratePAIN001` is modelled up to the document that it
-- gives to `xml.MarshalIndent`; the time of creation is the text that `Format` made of it.
pub mod Grouping
pub mod Complete
mod Tests
use Prim.Native.String.{◌++◌ as text_append}
use cobalt_dingo.Prelude.{
  ℕ, suc, Bool, true, false, Option, none, some, List, [], ◌∷◌, ◌++◌, map, length, String, str_eq,
  if◌then◌else◌, Result, ok, err, ◌>>=◌, ◌>>◌, fail_if,
}
use cobalt_dingo.Prelude.Int.{ℤ, pos, leb_ℤ}
use cobalt_dingo.Money.{Money}
use cobalt_dingo.Invoices.{EnrichedInvoice}

-- What the file uses of float64 and `fmt`: `float` is `Money.Float`, `amount` is the verb "%.2f".
pub record Formats (F : Type 0) : Type 0 where
  pub zero : F
  pub add : F → F → F
  pub float : Money → F
  pub amount : F → String
  pub decimal : ℕ → String
  pub two_digits : ℕ → String

pub record Debtor : Type 0 where
  pub name : String
  pub iban : String
  pub bic : String

-- `CdtTrfTxInf`, without the elements that only nest a single value.
pub record Transfer : Type 0 where
  pub end_to_end_id : String
  pub currency : String
  pub value : String
  pub creditor_bic : String
  pub creditor_name : String
  pub creditor_iban : String
  pub remittance : String

-- `PmtInf`. `service_level` is `none` where `PmtTpInf` is nil.
pub record PmtInf : Type 0 where
  pub pmt_inf_id : String
  pub method : String
  pub nb_of_txs : ℕ
  pub ctrl_sum : String
  pub service_level : Option String
  pub reqd_exctn_dt : String
  pub debtor : Debtor
  pub transfers : List Transfer

-- `Document`: the group header and the blocks.
pub record Document : Type 0 where
  pub msg_id : String
  pub created : String
  pub nb_of_txs : ℕ
  pub ctrl_sum : String
  pub initiator : String
  pub blocks : List PmtInf

-- `index_panic` is the run-time panic of `invoices[0]` on an empty block.
pub data PainError : Type 0 where
  no_invoices : PainError
  non_positive : ℕ → String → Money → PainError
  index_panic : PainError

-- The loop that refuses non-positive amounts.
unfoldable pub check_positive : List EnrichedInvoice → Result PainError (Unit {0})
check_positive [] = ok tt
check_positive (inv ∷ invoices) =
    fail_if (leb_ℤ inv.invoice.amount.minor_units (pos 0))
      (non_positive inv.invoice.invoice_number inv.invoice.supplier_name inv.invoice.amount)
    >> check_positive invoices

-- The two variables of the grouping loop: `order` and the map `grouped`.
pub record Groups : Type 0 where
  pub order : List String
  pub grouped : String → Option (List EnrichedInvoice)

-- `grouped[ccy]`, with the zero value of a missing key.
abbrev pub or_nil : Option (List EnrichedInvoice) → List EnrichedInvoice
or_nil none = []
or_nil (some l) = l

abbrev pub first_seen : String → Option (List EnrichedInvoice) → List String → List String
first_seen ccy none order = order ++ ccy ∷ []
first_seen ccy (some l) order = order

-- One round of the grouping loop.
unfoldable pub group : EnrichedInvoice → Groups → Groups
group inv g =
    let ccy = inv.invoice.amount.currency in
    let old = g.grouped ccy in
    record {
      order = first_seen ccy old g.order;
      grouped = λ k. if str_eq k ccy then some (or_nil old ++ inv ∷ []) else g.grouped k;
    }

unfoldable pub group_all : List EnrichedInvoice → Groups → Groups
group_all [] g = g
group_all (inv ∷ invoices) g = group_all invoices (group inv g)

abbrev pub no_groups : Groups
no_groups = record { order = []; grouped = λ k. none }

module _ {F : Type 0} (fmt : Formats F) where
  -- `sumAmounts`
  unfoldable pub sum_amounts : List EnrichedInvoice → F → F
  sum_amounts [] sum = sum
  sum_amounts (inv ∷ invoices) sum =
      sum_amounts invoices (fmt.add sum (fmt.float inv.invoice.amount))

  abbrev pub transfer : EnrichedInvoice → Transfer
  transfer inv =
      let number = fmt.decimal inv.invoice.invoice_number in
      record {
        end_to_end_id = text_append "INV-" number;
        currency = inv.invoice.amount.currency;
        value = fmt.amount (fmt.float inv.invoice.amount);
        creditor_bic = inv.bic;
        creditor_name = inv.invoice.supplier_name;
        creditor_iban = inv.iban;
        remittance = text_append "Invoice " number;
      }

  -- `buildPmtInf`
  unfoldable pub build_pmt_inf :
      ℕ → String → List EnrichedInvoice → Debtor → Result PainError PmtInf
  build_pmt_inf idx ccy [] debtor = err index_panic
  build_pmt_inf idx ccy (inv ∷ invoices) debtor = ok (record {
    pmt_inf_id = text_append "PMINF-" (fmt.two_digits idx);
    method = "TRF";
    nb_of_txs = length (inv ∷ invoices);
    ctrl_sum = fmt.amount (sum_amounts (inv ∷ invoices) fmt.zero);
    service_level = if str_eq ccy "EUR" then some "SEPA" else none;
    reqd_exctn_dt = inv.invoice.due_date;
    debtor = debtor;
    transfers = map transfer (inv ∷ invoices);
  })

  -- The loop over `order`; `i` is its index.
  unfoldable pub build_blocks :
      ℕ
      → List String
      → (String → Option (List EnrichedInvoice))
      → Debtor
      → Result PainError (List PmtInf)
  build_blocks i [] grouped debtor = ok []
  build_blocks i (ccy ∷ order) grouped debtor =
      build_pmt_inf (suc i) ccy (or_nil (grouped ccy)) debtor >>= λ block.
      build_blocks (suc i) order grouped debtor >>= λ blocks. ok (block ∷ blocks)

  -- `GeneratePAIN001`, after the checks.
  unfoldable pub build_document :
      List EnrichedInvoice → Debtor → String → String → Result PainError Document
  build_document invoices debtor msg_id created =
      let g = group_all invoices no_groups in
      build_blocks 0 g.order g.grouped debtor >>= λ blocks. ok (record {
        msg_id = msg_id;
        created = created;
        nb_of_txs = length invoices;
        ctrl_sum = fmt.amount (sum_amounts invoices fmt.zero);
        initiator = debtor.name;
        blocks = blocks;
      })

  abbrev pub is_empty : List EnrichedInvoice → Bool
  is_empty [] = true
  is_empty (x ∷ xs) = false

  -- `GeneratePAIN001`
  unfoldable pub generate :
      List EnrichedInvoice → Debtor → String → String → Result PainError Document
  generate invoices debtor msg_id created =
      fail_if (is_empty invoices) no_invoices
      >> (check_positive invoices >> build_document invoices debtor msg_id created)
