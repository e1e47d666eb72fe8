-- ===== src/Tools/Periods.antt =====
-- The tools of internal/mcp/tools_analytics.go on periods of vouchers: metrics, expenses and
-- comparisons; `latestYearID` and `resolveYearID` are of internal/mcp/tools_gl.go. The general ledger
-- answers as functions; the calendar arithmetic of a month is a parameter.
use cobalt_dingo.Prelude.{
  ℕ, zero, suc, ◌&&◌, Option, none, some, List, [], ◌∷◌, String, leb, if◌then◌else◌, Result, ok,
  err, ◌>>=◌, ◌==◌, not,
}
use cobalt_dingo.Prelude.Int.{ℤ, pos, negsuc, ltb_ℤ}
use cobalt_dingo.Dates.{Instant, parse_date}
use cobalt_dingo.Ledger.{Voucher, VoucherRow}
use cobalt_dingo.Tools.{Float}

pub record Year : Type 0 where
  pub id : ℕ
  pub to : Instant

-- What the tools ask of `GeneralLedger` for one tenant.
pub record Ledger : Type 0 where
  pub financial_years : Result String (List Year)
  pub vouchers : ℕ → Instant → Instant → Result String (List Voucher)

pub data ToolError : Type 0 where
  bad_date : String → String → ToolError
  no_years no_vouchers no_invoices : String → ToolError

unfoldable pub latest_of : Year → List Year → Year
latest_of best [] = best
latest_of best (y ∷ years) = latest_of (if ltb_ℤ best.to y.to then y else best) years

-- `latestYearID`
unfoldable pub latest_year_id : List Year → ℕ
latest_year_id [] = 0
latest_year_id (y ∷ years) = (latest_of y years).id

abbrev pub ledger_year : Ledger → Result ToolError ℕ
ledger_year ledger = elim ledger.financial_years [
  | err e ↦ err (no_years e)
  | ok years ↦ ok (latest_year_id years)
]

-- `resolveYearID`; 0 stands for an argument that is left out.
unfoldable pub resolve_year_id : Ledger → ℕ → Result ToolError ℕ
resolve_year_id ledger year_id = if not (year_id == 0) then ok year_id else ledger_year ledger

-- `parseDate`, with the argument that it is called for.
abbrev pub or_bad : String → String → Option Instant → Result ToolError Instant
or_bad arg text none = err (bad_date arg text)
or_bad arg text (some t) = ok t

unfoldable pub parse_arg : String → String → Result ToolError Instant
parse_arg arg text = or_bad arg text (parse_date text)

abbrev pub ask_vouchers : Ledger → ℕ → Instant → Instant → Result ToolError (List Voucher)
ask_vouchers ledger year from to = elim (ledger.vouchers year from to) [
  | err e ↦ err (no_vouchers e)
  | ok vouchers ↦ ok vouchers
]

module _ (float : Float) where
  open float use {F, zero_float, from_minor, add, sub, percent, is_zero}

  pub record Metrics : Type 0 where
    pub revenue : F
    pub cogs : F

  abbrev pub no_metrics : Metrics
  no_metrics = record { revenue = zero_float; cogs = zero_float }

  unfoldable pub meter_row : VoucherRow → Metrics → Metrics
  meter_row row m =
      let earned : F =
        if leb 3000 row.account && leb row.account 3999
        then add m.revenue (from_minor row.credit.minor_units)
        else m.revenue in
      let spent : F =
        if leb 4000 row.account && leb row.account 4999
        then add m.cogs (from_minor row.debit.minor_units)
        else m.cogs in
      record { revenue = earned; cogs = spent }

  unfoldable pub meter_rows : List VoucherRow → Metrics → Metrics
  meter_rows [] m = m
  meter_rows (row ∷ rows) m = meter_rows rows (meter_row row m)

  unfoldable pub meter_vouchers : List Voucher → Metrics → Metrics
  meter_vouchers [] m = m
  meter_vouchers (v ∷ vouchers) m = meter_vouchers vouchers (meter_rows v.rows m)

  -- `periodMetrics`
  unfoldable pub period_metrics : Ledger → ℕ → Instant → Instant → Result ToolError Metrics
  period_metrics ledger year from to = do
    vouchers ← ask_vouchers ledger year from to
    ok (meter_vouchers vouchers no_metrics)

  pub record PeriodEntry : Type 0 where
    pub from : String
    pub to : String
    pub metrics : Metrics

  -- `periodComparisonHandler`: every date is read before the ledger is asked.
  unfoldable pub period_comparison :
      Ledger → String → String → String → String → Result ToolError (PeriodEntry × PeriodEntry)
  period_comparison ledger from1 to1 from2 to2 = do
    p1_from ← parse_arg "period1_from" from1
    p1_to ← parse_arg "period1_to" to1
    p2_from ← parse_arg "period2_from" from2
    p2_to ← parse_arg "period2_to" to2
    year ← ledger_year ledger
    m1 ← period_metrics ledger year p1_from p1_to
    m2 ← period_metrics ledger year p2_from p2_to
    ok (
      record { from = from1; to = to1; metrics = m1 },
      record { from = from2; to = to2; metrics = m2 },
    )

  pub record SalesVsPurchases : Type 0 where
    pub revenue : F
    pub cogs : F
    pub net : F
    pub from : String
    pub to : String

  -- `salesVsPurchasesHandler`
  unfoldable pub sales_vs_purchases : Ledger → String → String → Result ToolError SalesVsPurchases
  sales_vs_purchases ledger from_text to_text = do
    from ← parse_arg "from_date" from_text
    to ← parse_arg "to_date" to_text
    year ← ledger_year ledger
    m ← period_metrics ledger year from to
    ok (record {
      revenue = m.revenue;
      cogs = m.cogs;
      net = sub m.revenue m.cogs;
      from = from_text;
      to = to_text;
    })

  pub record ExpenseRow : Type 0 where
    pub account : ℕ
    pub total : F

  -- `totals[row.Account] += row.Debit.Float()`
  unfoldable pub add_expense : ℕ → F → List ExpenseRow → List ExpenseRow
  add_expense account amount [] = record { account = account; total = add zero_float amount } ∷ []
  add_expense account amount (e ∷ totals) =
      let rest = add_expense account amount totals in
      if e.account == account then record e { total = add e.total amount } ∷ totals else e ∷ rest

  unfoldable pub expense_rows : List VoucherRow → List ExpenseRow → List ExpenseRow
  expense_rows [] totals = totals
  expense_rows (row ∷ rows) totals = expense_rows rows (
      if leb 4000 row.account && leb row.account 7999
      then add_expense row.account (from_minor row.debit.minor_units) totals
      else totals)

  unfoldable pub expense_vouchers : List Voucher → List ExpenseRow → List ExpenseRow
  expense_vouchers [] totals = totals
  expense_vouchers (v ∷ vouchers) totals = expense_vouchers vouchers (expense_rows v.rows totals)

  -- `expenseAnalysisHandler`, with the order of the map and of `sort.Slice` as a parameter.
  unfoldable pub expense_analysis :
      (List ExpenseRow → List ExpenseRow)
      → Ledger
      → String
      → String
      → Result ToolError (List ExpenseRow)
  expense_analysis sort ledger from_text to_text = do
    from ← parse_arg "from_date" from_text
    to ← parse_arg "to_date" to_text
    year ← ledger_year ledger
    vouchers ← ask_vouchers ledger year from to
    ok (sort (expense_vouchers vouchers []))

  pub record MonthMargin : Type 0 where
    pub month : String
    pub revenue : F
    pub cogs : F
    pub margin : F

  -- The first day, the last day and the name of the month so many months ago.
  pub record Month : Type 0 where
    pub start : Instant
    pub end_day : Instant
    pub label : String

  abbrev pub margin_of : Month → Metrics → MonthMargin
  margin_of month m = record {
    month = month.label;
    revenue = m.revenue;
    cogs = m.cogs;
    margin = if is_zero m.revenue then zero_float else percent (sub m.revenue m.cogs) m.revenue;
  }

  -- The loop from `i - 1` months ago down to the current month.
  unfoldable pub margin_months : Ledger → ℕ → (ℕ → Month) → ℕ → Result ToolError (List MonthMargin)
  margin_months ledger year month zero = ok []
  margin_months ledger year month (suc i) = do
    m ← period_metrics ledger year (month i).start (month i).end_day
    rest ← margin_months ledger year month i
    ok (margin_of (month i) m ∷ rest)

  abbrev pub months_or : ℤ → ℕ
  months_or (negsuc n) = 12
  months_or (pos zero) = 12
  months_or (pos (suc n)) = suc n

  -- `grossMarginTrendHandler`
  unfoldable pub gross_margin_trend : Ledger → (ℕ → Month) → ℤ → Result ToolError (List MonthMargin)
  gross_margin_trend ledger month months = do
    year ← ledger_year ledger
    margin_months ledger year month (months_or months)
