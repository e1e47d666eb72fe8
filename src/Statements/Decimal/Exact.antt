-- ===== src/Statements/Decimal/Exact.antt =====
-- Written amounts, and what `parse_decimal_minor` reads them as.
use cobalt_dingo.Prelude.{
  ℕ, zero, suc, length, length-append, ◌==◌, lt→ltb, ◌+◌, ◌*◌, ◌<◌, ◌≡◌, refl, ap, ◌∙◌, Bool, true,
  false, none, some, List, [], ◌∷◌, ◌++◌, map, All, arith, if◌then◌else◌, ok, err, ◌>>=◌,
}
use cobalt_dingo.Prelude.Int.{ℤ, pos, ◌-ℤ◌}
use cobalt_dingo.Prelude.Int64.{half, InRange, wrap64_of_InRange}
use cobalt_dingo.Prelude.Text.{Text, is_space, trim_space-kept, after_prefix}
use cobalt_dingo.Dates.{digit}
use cobalt_dingo.Statements.Decimal.{
  too_precise, cut_dot, all_zero, two_places, skip_space, scan_digits, scan_from, scan_number, fit,
  scan_rest, scan_int, with_sign, without_plus, parse_unsigned, parse_trimmed, parse_decimal_minor,
}

abbrev pub IsDigit : ℕ → Type 0
IsDigit d = d < 10

abbrev pub numeral : List ℕ → Text
numeral = map (λ d. b'0' + d)

-- What digits stand for, after a value.
abbrev pub value_of : ℕ → List ℕ → ℕ
value_of value [] = value
value_of value (d ∷ ds) = value_of (10 * value + d) ds

abbrev pub zeros : ℕ → Text
zeros zero = []
zeros (suc n) = b'0' ∷ zeros n

abbrev pub sign_text : Bool → Text
sign_text true = b'-' ∷ []
sign_text false = []

-- A decimal of two places and further zeros.
abbrev pub written : Bool → List ℕ → ℕ → ℕ → ℕ → Text
written neg ds a b more =
    sign_text neg ++ (numeral ds ++ (b'.' ∷ (b'0' + a) ∷ (b'0' + b) ∷ zeros more))

abbrev pub amount : Bool → ℕ → ℤ
amount true n = pos 0 -ℤ pos n
amount false n = pos n

digit-numeral : (d : ℕ) → IsDigit d → digit (b'0' + d) ≡ some d
digit-numeral d h = ground arith

is_space-numeral : (d : ℕ) → IsDigit d → is_space (b'0' + d) ≡ false
unfolding is_space
is_space-numeral d h = ground arith

scan_digits-numeral :
    (v : ℕ) (ds : List ℕ) → All IsDigit ds → scan_digits v (numeral ds) ≡ value_of v ds
unfolding scan_digits
scan_digits-numeral v [] hs = refl
scan_digits-numeral v (d ∷ ds) (h, hs) =
    rw (scan_digits, digit-numeral d h) (scan_digits-numeral (10 * v + d) ds hs)

all_zero-zeros : (n : ℕ) → all_zero (zeros n) ≡ true
unfolding all_zero
all_zero-zeros zero = refl
all_zero-zeros (suc n) = all_zero-zeros n

cut_dot-numeral :
    (ds : List ℕ) (rest : Text)
    → All IsDigit ds
    → cut_dot (numeral ds ++ (b'.' ∷ rest)) ≡ (numeral ds, rest)
unfolding cut_dot
cut_dot-numeral [] rest hs = refl
cut_dot-numeral (d ∷ ds) rest (h, hs) =
    let not_dot : ((b'0' + d) == b'.') ≡ false = ground arith in
    rw not_dot (ap (λ (p : Text × Text). ((b'0' + d) ∷ p.0, p.1)) (cut_dot-numeral ds rest hs))

scan_int-numeral :
    (d : ℕ) (ds : List ℕ)
    → IsDigit d
    → All IsDigit ds
    → scan_int (numeral (d ∷ ds)) ≡ fit false (some (value_of d ds))
unfolding scan_int skip_space
scan_int-numeral d ds h hs =
    let c = b'0' + d in
    let not_line : (c == 10) ≡ false = ground arith in
    let not_minus : (c == b'-') ≡ false = ground arith in
    let not_plus : (c == b'+') ≡ false = ground arith in
    let rest = skip_space (numeral ds) in
    let text = numeral (d ∷ ds) in
    let minus = fit true (scan_number (numeral ds)) in
    let plus = fit false (scan_number (numeral ds)) in
    ap (λ b. scan_rest (if b then none else if is_space c then rest else some text)) not_line
    ∙ ap (λ b. scan_rest (if b then rest else some text)) (is_space-numeral d h)
    ∙ ap (λ b. if b then minus else if c == b'+' then plus else fit false (scan_number text))
        not_minus
    ∙ ap (λ b. if b then plus else fit false (scan_number text)) not_plus
    ∙ ap (λ o. fit false (scan_from o (numeral ds))) (digit-numeral d h)
    ∙ ap (λ n. fit false (some n)) (scan_digits-numeral d ds hs)

value_of-places :
    (v : ℕ) (ds : List ℕ) (a b : ℕ)
    → value_of v (ds ++ (a ∷ b ∷ [])) ≡ 100 * value_of v ds + 10 * a + b
value_of-places v [] a b = omega arith
value_of-places v (d ∷ ds) a b = value_of-places (10 * v + d) ds a b

numeral-places :
    (ds : List ℕ) (a b : ℕ)
    → numeral ds ++ ((b'0' + a) ∷ (b'0' + b) ∷ []) ≡ numeral (ds ++ (a ∷ b ∷ []))
numeral-places [] a b = refl
numeral-places (d ∷ ds) a b = ap (λ t. (b'0' + d) ∷ t) (numeral-places ds a b)

places-IsDigit :
    (ds : List ℕ) (a b : ℕ)
    → All IsDigit ds
    → IsDigit a
    → IsDigit b
    → All IsDigit (ds ++ (a ∷ b ∷ []))
places-IsDigit [] a b hs ha hb = (ha, (hb, tt))
places-IsDigit (d ∷ ds) a b (h, hs) ha hb = (h, places-IsDigit ds a b hs ha hb)

scan_int-some :
    (ds : List ℕ)
    → All IsDigit ds
    → (0 < length ds)
    → scan_int (numeral ds) ≡ fit false (some (value_of 0 ds))
scan_int-some [] hs h = absurd (omega arith)
scan_int-some (d ∷ ds) (h, hs) more =
    let from_zero : d ≡ 0 + d = omega arith in
    scan_int-numeral d ds h hs ∙ ap (λ n. fit false (some (value_of n ds))) from_zero

amount-InRange : (neg : Bool) (n : ℕ) → n < half → InRange (amount neg n)
unfolding ◌-ℤ◌
amount-InRange true n h = ground arith
amount-InRange false n h = ground arith

amount-fit :
    (neg : Bool) (n : ℕ) → n < half → with_sign neg (fit false (some n)) ≡ ok (amount neg n)
amount-fit true n h =
    ap (λ b. with_sign true (if b then some (pos n) else none)) (lt→ltb n half h)
    ∙ ap ok (wrap64_of_InRange (amount true n) (amount-InRange true n h))
amount-fit false n h =
    ap (λ b. with_sign false (if b then some (pos n) else none)) (lt→ltb n half h)

-- The part after the sign.
abbrev unsigned : List ℕ → ℕ → ℕ → ℕ → Text
unsigned ds a b more = numeral ds ++ (b'.' ∷ (b'0' + a) ∷ (b'0' + b) ∷ zeros more)

parse_unsigned-written :
    (neg : Bool) (ds : List ℕ) (a b more : ℕ)
    → All IsDigit ds
    → IsDigit a
    → IsDigit b
    → 100 * value_of 0 ds + 10 * a + b < half
    → parse_unsigned neg (unsigned ds a b more) ≡ ok (amount neg (100 * value_of 0 ds + 10 * a + b))
unfolding parse_unsigned
parse_unsigned-written neg ds a b more hs ha hb small =
    let places = (b'0' + a) ∷ (b'0' + b) ∷ [] in
    let digits = ds ++ (a ∷ b ∷ []) in
    ap (λ (p : Text × Text). two_places p.1 >>= λ t. with_sign neg (scan_int (p.0 ++ t)))
      (cut_dot-numeral ds ((b'0' + a) ∷ (b'0' + b) ∷ zeros more) hs)
    ∙ ap
        (λ c. (if c then ok places else err too_precise) >>= λ t.
          with_sign neg (scan_int (numeral ds ++ t)))
        (all_zero-zeros more)
    ∙ ap (λ t. with_sign neg (scan_int t)) (numeral-places ds a b)
    ∙ ap (with_sign neg) (
        scan_int-some digits (places-IsDigit ds a b hs ha hb)
          (omega (arith, length-append ds (a ∷ b ∷ []))))
    ∙ ap (λ n. with_sign neg (fit false (some n))) (value_of-places 0 ds a b)
    ∙ amount-fit neg (100 * value_of 0 ds + 10 * a + b) small

abbrev IsInk : ℕ → Type 0
IsInk c = is_space c ≡ false

zeros-IsInk : (n : ℕ) → All IsInk (zeros n)
unfolding is_space
zeros-IsInk zero = tt
zeros-IsInk (suc n) = (refl, zeros-IsInk n)

unsigned-IsInk :
    (ds : List ℕ) (a b more : ℕ)
    → All IsDigit ds
    → IsDigit a
    → IsDigit b
    → All IsInk (unsigned ds a b more)
unfolding is_space
unsigned-IsInk [] a b more hs ha hb =
    (refl, (is_space-numeral a ha, (is_space-numeral b hb, zeros-IsInk more)))
unsigned-IsInk (d ∷ ds) a b more (h, hs) ha hb =
    (is_space-numeral d h, unsigned-IsInk ds a b more hs ha hb)

-- A text without a sign is read as it stands.
no_sign :
    (ds : List ℕ) (a b more : ℕ)
    → All IsDigit ds
    → (parse_trimmed (unsigned ds a b more) ≡ parse_unsigned false (unsigned ds a b more))
      × (without_plus (unsigned ds a b more) ≡ unsigned ds a b more)
unfolding after_prefix
no_sign [] a b more hs = (refl, refl)
no_sign (d ∷ ds) a b more (h, hs) =
    let not_minus : (b'-' == (b'0' + d)) ≡ false = ground arith in
    let not_plus : (b'+' == (b'0' + d)) ≡ false = ground arith in
    (rw (not_minus, not_plus) refl, rw not_plus refl)

parse_trimmed-written :
    (neg : Bool) (ds : List ℕ) (a b more : ℕ)
    → All IsDigit ds
    → IsDigit a
    → IsDigit b
    → 100 * value_of 0 ds + 10 * a + b < half
    → parse_trimmed (written neg ds a b more) ≡ ok (amount neg (100 * value_of 0 ds + 10 * a + b))
unfolding after_prefix
parse_trimmed-written false ds a b more hs ha hb small =
    (no_sign ds a b more hs).0 ∙ parse_unsigned-written false ds a b more hs ha hb small
parse_trimmed-written true ds a b more hs ha hb small =
    ap (parse_unsigned true) (no_sign ds a b more hs).1
    ∙ parse_unsigned-written true ds a b more hs ha hb small

written-IsInk :
    (neg : Bool) (ds : List ℕ) (a b more : ℕ)
    → All IsDigit ds
    → IsDigit a
    → IsDigit b
    → All IsInk (written neg ds a b more)
unfolding is_space
written-IsInk false ds a b more hs ha hb = unsigned-IsInk ds a b more hs ha hb
written-IsInk true ds a b more hs ha hb = (refl, unsigned-IsInk ds a b more hs ha hb)

-- An amount written in decimal, as an optional minus sign, any number of digits, a point, two
-- digits and any number of zeros, is read as exactly the number of minor units that it stands for,
-- if that number is below 2^63.
pub parse_decimal_minor-written :
    (neg : Bool) (ds : List ℕ) (a b more : ℕ)
    → All IsDigit ds
    → IsDigit a
    → IsDigit b
    → 100 * value_of 0 ds + 10 * a + b < half
    → parse_decimal_minor (written neg ds a b more)
      ≡ ok (amount neg (100 * value_of 0 ds + 10 * a + b))
unfolding parse_decimal_minor
parse_decimal_minor-written neg ds a b more hs ha hb small =
    ap parse_trimmed
      (trim_space-kept (written neg ds a b more) (written-IsInk neg ds a b more hs ha hb))
    ∙ parse_trimmed-written neg ds a b more hs ha hb small
