-- ===== src/Dates.antt =====
-- What the source uses of Go's `time`: instants, `time.Parse("2006-01-02", s)`, `Sub`, and the
-- whole days of a duration.
--
-- An instant is a signed number of nanoseconds since Go's zero time, the start of year 1 in UTC.
pub mod Stamp
mod Tests
use Prim.Native.Char.{code}
use cobalt_dingo.Prelude.{
  ℕ, zero, suc, ◌+◌, ◌-◌, ◌*◌, ◌/◌, ◌%◌, ◌^◌, Bool, ◌&&◌, ◌||◌, not, Option, none, some, List, [],
  ◌∷◌, String, ltb, leb, ◌==◌, if◌then◌else◌,
}
use cobalt_dingo.Prelude.Int.{ℤ, pos, negsuc, sub_ℕ, ◌-ℤ◌, ltb_ℤ}

abbrev pub Instant : Type 0
Instant = ℤ

-- `Time.IsZero`
abbrev pub is_zero : Instant → Bool
is_zero (pos n) = n == 0
is_zero (negsuc n) = Bool.false

abbrev pub ns_per_day : ℕ
ns_per_day = 86400 * 10 ^ 9

-- The code points of a text.
unfoldable pub codes : String → List ℕ
codes String.[] = []
codes (String.◌∷◌ c s) = code c ∷ codes s

-- A decimal digit, as its value.
abbrev pub digit : ℕ → Option ℕ
digit c = if leb b'0' c && leb c b'9' then some (c - b'0') else none

unfoldable pub digits_two : ℕ → ℕ → Option ℕ
digits_two a b = elim (digit a) [
  | none ↦ none
  | some x ↦ elim (digit b) [ none ↦ none | some y ↦ some (10 * x + y) ]
]

is_leap : ℕ → Bool
is_leap y = (y % 4) == 0 && (not ((y % 100) == 0) || ((y % 400) == 0))

days_in : ℕ → ℕ → ℕ
days_in y m =
    if m == 2
    then (if is_leap y then 29 else 28)
    else if m == 4 || m == 6 || m == 9 || m == 11
    then 30
    else 31

-- The days of the months before month `m + 1`.
days_before : ℕ → ℕ → ℕ
days_before y zero = 0
days_before y (suc m) = days_before y m + days_in y (suc m)

-- Days since the first of January of year 0; year 1 begins at day 366.
day_number : ℕ → ℕ → ℕ → ℕ
day_number y m d =
    365 * y + (y + 3) / 4 + (y + 399) / 400 - (y + 99) / 100 + days_before y (m - 1) + (d - 1)

civil : ℕ → ℕ → ℕ → Option Instant
civil y m d =
    if leb 1 m && leb m 12 && leb 1 d && leb d (days_in y m)
    then some (sub_ℕ (day_number y m d * ns_per_day) (366 * ns_per_day))
    else none

unfoldable pub parse_codes : List ℕ → Option Instant
unfolding digits_two civil day_number days_before days_in is_leap
parse_codes (y1 ∷ y2 ∷ y3 ∷ y4 ∷ s1 ∷ m1 ∷ m2 ∷ s2 ∷ d1 ∷ d2 ∷ []) =
    if s1 == b'-' && s2 == b'-'
    then elim (digits_two y1 y2) [
      | none ↦ none
      | some century ↦ elim (digits_two y3 y4) [
        | none ↦ none
        | some year ↦ elim (digits_two m1 m2) [
          | none ↦ none
          | some month ↦ elim (digits_two d1 d2) [
            | none ↦ none
            | some day ↦ civil (100 * century + year) month day
          ]
        ]
      ]
    ]
    else none
parse_codes other = none

-- `time.Parse("2006-01-02", s)`, with `none` for its error.
unfoldable pub parse_date : String → Option Instant
unfolding codes parse_codes
parse_date s = parse_codes (codes s)

-- `a.Sub(b)`: a duration is an int64, and `Sub` saturates.
unfoldable pub sub_time : Instant → Instant → ℤ
unfolding ◌-ℤ◌
sub_time a b =
    let d = a -ℤ b in
    if ltb_ℤ (pos (2 ^ 63 - 1)) d
    then pos (2 ^ 63 - 1)
    else if ltb_ℤ d (negsuc (2 ^ 63 - 1))
    then negsuc (2 ^ 63 - 1)
    else d

-- `int(d.Hours() / 24)`: a conversion to int drops the fraction, towards zero.
unfoldable pub whole_days : ℤ → ℤ
whole_days (pos n) = pos (n / ns_per_day)
whole_days (negsuc n) = sub_ℕ 0 (suc n / ns_per_day)
