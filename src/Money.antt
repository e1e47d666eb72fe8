-- ===== src/Money.antt =====
-- Amounts of money: internal/domain/money.go, and the currency checks of
-- internal/domain/financial_overview.go. A Go string is compared whole, so it is a `String`.
use cobalt_dingo.Prelude.{◌&&◌, not, String, str_eq, if◌then◌else◌, Result, ok, err}
use cobalt_dingo.Prelude.Int.{ℤ, pos, eqb_ℤ}

-- `minor_units` is an int64; a sum of amounts is `add64`.
pub record Money : Type 0 where
  pub minor_units : ℤ
  pub currency : String

-- Go's zero value, `Money{}`.
abbrev pub no_money : Money
no_money = record { minor_units = pos 0; currency = "" }

-- The accounts, rows and invoices whose figures the overview sums, as the error text names them.
pub record WrongCurrency (W : Type 0) : Type 0 where
  pub place : W
  pub found : String
  pub expected : String

-- `ensureCurrency`
unfoldable pub ensure_currency : Money → String → Money
ensure_currency m currency = if str_eq m.currency "" then record m { currency = currency } else m

-- `assertCurrency`: the zero value passes, any other figure must be in `expected`.
unfoldable pub assert_currency :
    {W : Type 0} → Money → String → W → Result (WrongCurrency W) (Unit {0})
assert_currency m expected place =
    if eqb_ℤ m.minor_units (pos 0) && str_eq m.currency ""
    then ok tt
    else if not (str_eq m.currency expected)
    then err (record { place = place; found = m.currency; expected = expected })
    else ok tt
