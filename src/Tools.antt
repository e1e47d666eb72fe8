-- ===== src/Tools.antt =====
-- What the tools on receivables and payables share: internal/mcp/tools_ap.go and tools_ar.go. Their
-- handlers do the same on customer and on supplier invoices; a section has what an invoice is read
-- by. `sort.Slice` and float64 are parameters; JSON and the arguments' decoding are left out.
pub mod Payable
pub mod Receivable
pub mod Ranks
pub mod Periods
pub mod Counted
pub mod Totals
pub mod Margins
mod Tests
use cobalt_dingo.Prelude.{
  ℕ, zero, suc, ◌≡◌, Bool, true, false, ◌&&◌, ◌||◌, Option, none, some, List, [], ◌∷◌, map, ◌==◌,
  String, str_eq, ltb, if◌then◌else◌, length, select, Result, ok, err,
}
use cobalt_dingo.Prelude.Int.{ℤ, pos, negsuc, ltb_ℤ, leb_ℤ}
use cobalt_dingo.Prelude.Int64.{add64}
use cobalt_dingo.Dates.{Instant}
use cobalt_dingo.Money.{Money}
use cobalt_dingo.Analysis.{days_overdue, text_before}
use cobalt_dingo.Analysis.Groups.{Eq, group_by, group_of, ordered_keys, nat_eq, string_eq}

abbrev pub take : {A : Type 0} → ℕ → List A → List A
take zero xs = []
take (suc n) [] = []
take (suc n) (x ∷ xs) = x ∷ take n xs

-- `if limit > 0 && limit < len(xs) { xs = xs[:limit] }`
unfoldable pub cut_to : {A : Type 0} → ℤ → List A → List A
cut_to (negsuc n) xs = xs
cut_to (pos n) xs = if ltb 0 n && ltb n (length xs) then take n xs else xs

-- `float64(total) / 100` and `Money.Float` are the one conversion `from_minor`.
pub record Float : Type 1 where
  pub F : Type 0
  pub zero_float : F
  pub from_minor : ℤ → F
  pub add : F → F → F
  pub sub : F → F → F
  pub percent : F → F → F
  pub is_zero : F → Bool
  pub greater : F → F → Bool

pub record CurrencyTotal (F : Type 0) : Type 0 where
  pub currency : String
  pub total : F

-- `minorByCurrency[c] += units`; the keys stand in the order in which they first appear.
unfoldable pub add_minor : String → ℤ → List (String × ℤ) → List (String × ℤ)
add_minor c units [] = (c, add64 (pos 0) units) ∷ []
add_minor c units ((d, total) ∷ totals) =
    let rest = add_minor c units totals in
    if str_eq d c then (d, add64 total units) ∷ totals else (d, total) ∷ rest

unfoldable pub add_amounts : List Money → List (String × ℤ) → List (String × ℤ)
add_amounts [] totals = totals
add_amounts (m ∷ amounts) totals = add_amounts amounts (add_minor m.currency m.minor_units totals)

module _ (float : Float) where
  open float use {F, from_minor, greater}

  -- `sumCurrencyTotals`
  unfoldable pub sum_currency_totals : List Money → List (CurrencyTotal F)
  sum_currency_totals amounts =
      map (λ (e : String × ℤ). record { currency = e.0; total = from_minor e.1 })
        (add_amounts amounts [])

  -- `supplierGroup` and `customerGroup`
  pub record PartyGroup : Type 0 where
    pub number : ℕ
    pub name : String
    pub count : ℕ
    pub currencies : List (CurrencyTotal F)

  abbrev pub greater_first : List (CurrencyTotal F) → List (CurrencyTotal F) → Bool
  greater_first (a ∷ rest) (b ∷ others) = greater a.total b.total
  greater_first other another = false

  abbrev pub before_group : PartyGroup → PartyGroup → Bool
  before_group a b = greater_first a.currencies b.currencies

  pub record CurrencySummary : Type 0 where
    pub currency : String
    pub count : ℕ
    pub total : F
    pub oldest_due : String

  pub record SummaryResult : Type 0 where
    pub total_count : ℕ
    pub currencies : List CurrencySummary

  pub record OverdueInvoice : Type 0 where
    pub invoice_number : ℕ
    pub number : ℕ
    pub name : String
    pub currency : String
    pub amount : F
    pub due_date : String
    pub days_overdue : ℤ

-- How an invoice is read: a customer invoice or a supplier invoice.
pub record Reading (Inv : Type 0) : Type 0 where
  pub invoice_number : Inv → ℕ
  pub party_number : Inv → ℕ
  pub party_name : Inv → String
  pub amount : Inv → Money
  pub due_date : Inv → String

module _ {Inv : Type 0} (r : Reading Inv) where
  abbrev pub currency_of : Inv → String
  currency_of inv = (r.amount inv).currency

  -- The name of the last invoice of a group.
  unfoldable pub last_name : List Inv → String → String
  last_name [] before = before
  last_name (inv ∷ group) before = last_name group (r.party_name inv)

  unfoldable pub sum_amounts : List Inv → ℤ → ℤ
  sum_amounts [] total = total
  sum_amounts (inv ∷ group) total = sum_amounts group (add64 total (r.amount inv).minor_units)

  unfoldable pub oldest_of : List Inv → String → String
  oldest_of [] oldest = oldest
  oldest_of (inv ∷ group) oldest =
      oldest_of group
        (if str_eq oldest "" || text_before (r.due_date inv) oldest then r.due_date inv else oldest)

module _ (float : Float) {Inv : Type 0} (r : Reading Inv) where
  open float use {F, from_minor}

  abbrev pub summary_of : List Inv → String → CurrencySummary float
  summary_of invoices currency =
      let group : List Inv = group_of currency (group_by invoices (currency_of r)) in
      record {
        currency = currency;
        count = length group;
        total = from_minor (sum_amounts r group (pos 0));
        oldest_due = oldest_of r group "";
      }

  -- `apSummaryHandler` and `arSummaryHandler`
  unfoldable pub summary : List Inv → SummaryResult float
  summary invoices = record {
    total_count = length invoices;
    currencies = map (summary_of invoices) (ordered_keys invoices (currency_of r));
  }

  abbrev pub group_for : List Inv → ℕ → PartyGroup float
  group_for invoices number =
      let group : List Inv = group_of number (group_by invoices r.party_number) in
      record {
        number = number;
        name = last_name r group "";
        count = length group;
        currencies = sum_currency_totals float (map r.amount group);
      }

  -- `apBySupplierHandler` and `arByCustomerHandler`, with `sort.Slice` as a parameter.
  unfoldable pub by_party :
      ((PartyGroup float → PartyGroup float → Bool)
        → List (PartyGroup float)
        → List (PartyGroup float))
      → ℤ
      → List Inv
      → List (PartyGroup float)
  by_party sort limit invoices =
      cut_to limit (
        sort (before_group float) (map (group_for invoices) (ordered_keys invoices r.party_number)))

  abbrev pub overdue_entry : Instant → Inv → OverdueInvoice float
  overdue_entry today inv = record {
    invoice_number = r.invoice_number inv;
    number = r.party_number inv;
    name = r.party_name inv;
    currency = currency_of r inv;
    amount = from_minor (r.amount inv).minor_units;
    due_date = r.due_date inv;
    days_overdue = days_overdue (r.due_date inv) today;
  }

  abbrev pub is_overdue : ℤ → Instant → Inv → Bool
  is_overdue threshold today inv =
      let days : ℤ = days_overdue (r.due_date inv) today in
      leb_ℤ threshold days && ltb_ℤ (pos 0) days

  unfoldable pub overdue_entries : ℤ → Instant → List Inv → List (OverdueInvoice float)
  overdue_entries threshold today [] = []
  overdue_entries threshold today (inv ∷ invoices) =
      let rest = overdue_entries threshold today invoices in
      if is_overdue threshold today inv then overdue_entry today inv ∷ rest else rest

  abbrev pub more_overdue : OverdueInvoice float → OverdueInvoice float → Bool
  more_overdue a b = ltb_ℤ b.days_overdue a.days_overdue

  -- `apOverdueHandler` and `arOverdueHandler`
  unfoldable pub overdue :
      ((OverdueInvoice float → OverdueInvoice float → Bool)
        → List (OverdueInvoice float)
        → List (OverdueInvoice float))
      → ℤ
      → Instant
      → List Inv
      → List (OverdueInvoice float)
  overdue sort threshold today invoices =
      sort more_overdue (overdue_entries threshold today invoices)

module _ {Inv : Type 0} (r : Reading Inv) where
  -- The loops of the histories and of the details.
  unfoldable pub of_party : ℕ → List Inv → List Inv
  of_party number invoices = select (λ inv. r.party_number inv == number) invoices

  unfoldable pub find_invoice : ℕ → List Inv → Option Inv
  find_invoice number [] = none
  find_invoice number (inv ∷ invoices) =
      if r.invoice_number inv == number then some inv else find_invoice number invoices
