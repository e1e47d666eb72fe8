-- ===== src/Statements/Decimal.antt =====
-- `parseDecimalMinor` of internal/statements/statement.go, with what it uses of `fmt.Sscanf` and
-- `strconv.ParseInt`. The texts of amounts are ASCII, so that a byte is a code point.
pub mod Exact
pub mod Bounds
mod Tests
use cobalt_dingo.Prelude.{
  ℕ, ◌+◌, ◌*◌, Bool, true, false, ◌&&◌, Option, none, some, List, [], ◌∷◌, ◌++◌, leb, ltb, ◌==◌,
  if◌then◌else◌, Result, ok, err, ◌>>=◌,
}
use cobalt_dingo.Prelude.Int.{ℤ, pos, ◌-ℤ◌}
use cobalt_dingo.Prelude.Int64.{half, neg64}
use cobalt_dingo.Prelude.Text.{Text, is_space, trim_space, after_prefix}
use cobalt_dingo.Dates.{digit}

pub data DecimalError : Type 0 where
  empty_amount too_precise unreadable : DecimalError

-- `strings.Cut` at the first ".": both sides, the second empty if there is none.
unfoldable pub cut_dot : Text → Text × Text
cut_dot [] = ([], [])
cut_dot (c ∷ cs) =
    let (whole, frac) = cut_dot cs in if c == b'.' then ([], cs) else (c ∷ whole, frac)

-- Whether `strings.Trim(s, "0")` is empty.
unfoldable pub all_zero : Text → Bool
all_zero [] = true
all_zero (c ∷ cs) = c == b'0' && all_zero cs

-- The `switch` on the fraction.
abbrev pub two_places : Text → Result DecimalError Text
two_places [] = ok (b'0' ∷ b'0' ∷ [])
two_places (a ∷ []) = ok (a ∷ b'0' ∷ [])
two_places (a ∷ b ∷ rest) = if all_zero rest then ok (a ∷ b ∷ []) else err too_precise

-- The space that a verb of `Sscanf` skips; a line feed is an error.
unfoldable pub skip_space : Text → Option Text
skip_space [] = some []
skip_space (c ∷ cs) =
    let rest = skip_space cs in if c == 10 then none else if is_space c then rest else some (c ∷ cs)

-- The digits from here on, up to the first other character.
unfoldable pub scan_digits : ℕ → Text → ℕ
scan_digits value [] = value
scan_digits value (c ∷ cs) = elim (digit c) [
  | none ↦ value
  | some d ↦ scan_digits (10 * value + d) cs
]

abbrev pub scan_from : Option ℕ → Text → Option ℕ
scan_from none cs = none
scan_from (some d) cs = some (scan_digits d cs)

-- At least one digit.
abbrev pub scan_number : Text → Option ℕ
scan_number [] = none
scan_number (c ∷ cs) = scan_from (digit c) cs

-- `strconv.ParseInt` in 64 bits, of a magnitude after a sign.
abbrev pub fit : Bool → Option ℕ → Option ℤ
fit negative none = none
fit true (some n) = if leb n half then some (pos 0 -ℤ pos n) else none
fit false (some n) = if ltb n half then some (pos n) else none

abbrev pub scan_signed : Text → Option ℤ
scan_signed [] = none
scan_signed (c ∷ cs) =
    if c == b'-'
    then fit true (scan_number cs)
    else if c == b'+'
    then fit false (scan_number cs)
    else fit false (scan_number (c ∷ cs))

abbrev pub scan_rest : Option Text → Option ℤ
scan_rest none = none
scan_rest (some s) = scan_signed s

-- `fmt.Sscanf(s, "%d", &minor)`, which leaves what follows the number.
unfoldable pub scan_int : Text → Option ℤ
scan_int s = scan_rest (skip_space s)

abbrev pub with_sign : Bool → Option ℤ → Result DecimalError ℤ
with_sign neg none = err unreadable
with_sign true (some minor) = ok (neg64 minor)
with_sign false (some minor) = ok minor

-- `strings.TrimPrefix`
abbrev pub or_whole : Text → Option Text → Text
or_whole s none = s
or_whole s (some rest) = rest

abbrev pub without_plus : Text → Text
without_plus s = or_whole s (after_prefix (b'+' ∷ []) s)

-- What follows the sign.
unfoldable pub parse_unsigned : Bool → Text → Result DecimalError ℤ
parse_unsigned neg s =
    let (whole, frac) = cut_dot s in
    two_places frac >>= λ places. with_sign neg (scan_int (whole ++ places))

abbrev pub parse_signed : Text → Option Text → Result DecimalError ℤ
parse_signed s none = parse_unsigned false (without_plus s)
parse_signed s (some rest) = parse_unsigned true (without_plus rest)

abbrev pub parse_trimmed : Text → Result DecimalError ℤ
parse_trimmed [] = err empty_amount
parse_trimmed (c ∷ cs) = parse_signed (c ∷ cs) (after_prefix (b'-' ∷ []) (c ∷ cs))

-- `parseDecimalMinor`
unfoldable pub parse_decimal_minor : Text → Result DecimalError ℤ
parse_decimal_minor s = parse_trimmed (trim_space s)
