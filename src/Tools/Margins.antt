-- ===== src/Tools/Margins.antt =====
-- The months of the trend of the gross margin, and the year that a tool falls back to.
use cobalt_dingo.Prelude.{
  ℕ, zero, suc, ◌≡◌, refl, sym, ap, ◌∙◌, List, [], ◌∷◌, map, String, ok, >>=-eq-ok, ok-injective,
  length, length-map,
}
use cobalt_dingo.Prelude.Int.{ℤ}
use cobalt_dingo.Tools.{Float}
use cobalt_dingo.Tools.Periods.{
  Ledger, Month, MonthMargin, margin_months, margin_of, gross_margin_trend, months_or,
  period_metrics, ledger_year,
}

module _ (float : Float) where
  -- The labels of the months from so many months ago down to the current one.
  abbrev pub labels : (ℕ → Month float) → ℕ → List String
  labels month zero = []
  labels month (suc i) = (month i).label ∷ labels month i

  abbrev pub label_of : MonthMargin float → String
  label_of row = row.month

  length-labels : (month : ℕ → Month float) (n : ℕ) → length (labels month n) ≡ n
  length-labels month zero = refl
  length-labels month (suc i) = ap suc (length-labels month i)

  margin_months-labels :
      (ledger : Ledger) (year : ℕ) (month : ℕ → Month float) (i : ℕ)
      (rows : List (MonthMargin float))
      → margin_months float ledger year month i ≡ ok rows
      → map label_of rows ≡ labels month i
  unfolding margin_months
  margin_months-labels ledger year month zero rows h =
      sym (ap (map label_of) (ok-injective [] rows h))
  margin_months-labels ledger year month (suc i) rows h =
      let (m, got, h1) =
        >>=-eq-ok (period_metrics float ledger year (month i).start (month i).end_day) _ h in
      let (rest, more, h2) = >>=-eq-ok (margin_months float ledger year month i) _ h1 in
      let same : margin_of float (month i) m ∷ rest ≡ rows = ok-injective _ rows h2 in
      sym (ap (map label_of) same)
      ∙ ap (◌∷◌ (month i).label) (margin_months-labels ledger year month i rest more)

  -- A trend that is answered has one row for each of the last months, twelve where the number is not
  -- positive, from the oldest to the current one.
  gross_margin_trend-labels :
      (ledger : Ledger) (month : ℕ → Month float) (months : ℤ) (rows : List (MonthMargin float))
      → gross_margin_trend float ledger month months ≡ ok rows
      → (map label_of rows ≡ labels month (months_or float months))
        × (length rows ≡ months_or float months)
  unfolding gross_margin_trend
  gross_margin_trend-labels ledger month months rows h =
      let (year, got, h1) = >>=-eq-ok (ledger_year ledger) _ h in
      let named = margin_months-labels ledger year month (months_or float months) rows h1 in
      (
        named,
        sym (length-map label_of rows)
            ∙ ap length named
            ∙ length-labels month (months_or float months),
      )
