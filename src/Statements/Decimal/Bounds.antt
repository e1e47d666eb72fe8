-- ===== src/Statements/Decimal/Bounds.antt =====
-- What `parse_decimal_minor` can return.
use cobalt_dingo.Prelude.{
  ℕ, ◌≡◌, sym, Bool, true, false, Option, none, some, [], ◌∷◌, ◌++◌, arith, leb, ltb, leb→le,
  ltb→lt, Bool-cases, inl, inr, subst, ok, ok-injective, >>=-eq-ok, ◌==◌, if◌then◌else◌,
}
use cobalt_dingo.Prelude.Int.{ℤ, pos, ◌-ℤ◌}
use cobalt_dingo.Prelude.Int64.{half, InRange, wrap64-InRange}
use cobalt_dingo.Prelude.Text.{Text, trim_space, after_prefix}
use cobalt_dingo.Statements.Decimal.{
  cut_dot, two_places, skip_space, scan_number, fit, scan_signed, scan_rest, scan_int, with_sign,
  without_plus, parse_unsigned, parse_signed, parse_trimmed, parse_decimal_minor,
}

-- Whatever there is, is in the range of an int64.
abbrev AllInRange : Option ℤ → Type 0
AllInRange none = Unit
AllInRange (some n) = InRange n

fit-AllInRange : (negative : Bool) (o : Option ℕ) → AllInRange (fit negative o)
unfolding ◌-ℤ◌
fit-AllInRange negative none = tt
fit-AllInRange true (some n) = elim (Bool-cases (leb n half)) [
  | inl e ↦
      subst (λ b. AllInRange (if b then some (pos 0 -ℤ pos n) else none)) (sym e)
        (let small = leb→le n half e in ground arith)
  | inr e ↦ subst (λ b. AllInRange (if b then some (pos 0 -ℤ pos n) else none)) (sym e) tt
]
fit-AllInRange false (some n) = elim (Bool-cases (ltb n half)) [
  | inl e ↦
      subst (λ b. AllInRange (if b then some (pos n) else none)) (sym e)
        (let small = ltb→lt n half e in ground arith)
  | inr e ↦ subst (λ b. AllInRange (if b then some (pos n) else none)) (sym e) tt
]

choose-AllInRange :
    (b : Bool) (x y : Option ℤ) → AllInRange x → AllInRange y → AllInRange (if b then x else y)
choose-AllInRange true x y hx hy = hx
choose-AllInRange false x y hx hy = hy

scan_signed-AllInRange : (s : Text) → AllInRange (scan_signed s)
scan_signed-AllInRange [] = tt
scan_signed-AllInRange (c ∷ cs) =
    choose-AllInRange (c == b'-') _ _ (fit-AllInRange true (scan_number cs)) (
      choose-AllInRange (c == b'+') _ _ (fit-AllInRange false (scan_number cs))
        (fit-AllInRange false (scan_number (c ∷ cs))))

scan_rest-AllInRange : (o : Option Text) → AllInRange (scan_rest o)
scan_rest-AllInRange none = tt
scan_rest-AllInRange (some s) = scan_signed-AllInRange s

with_sign-InRange :
    (neg : Bool) (o : Option ℤ) (n : ℤ) → AllInRange o → with_sign neg o ≡ ok n → InRange n
with_sign-InRange neg none n h e = cc
with_sign-InRange true (some m) n h e =
    subst InRange (ok-injective _ _ e) (wrap64-InRange (pos 0 -ℤ m))
with_sign-InRange false (some m) n h e = subst InRange (ok-injective _ _ e) h

parse_unsigned-InRange : (neg : Bool) (s : Text) (n : ℤ) → parse_unsigned neg s ≡ ok n → InRange n
unfolding parse_unsigned scan_int
parse_unsigned-InRange neg s n e =
    let (places, two, scanned) = >>=-eq-ok (two_places (cut_dot s).1) _ e in
    with_sign-InRange neg _ n (scan_rest-AllInRange (skip_space ((cut_dot s).0 ++ places))) scanned

parse_signed-InRange : (s : Text) (o : Option Text) (n : ℤ) → parse_signed s o ≡ ok n → InRange n
parse_signed-InRange s none n e = parse_unsigned-InRange false (without_plus s) n e
parse_signed-InRange s (some rest) n e = parse_unsigned-InRange true (without_plus rest) n e

parse_trimmed-InRange : (s : Text) (n : ℤ) → parse_trimmed s ≡ ok n → InRange n
parse_trimmed-InRange [] n e = cc
parse_trimmed-InRange (c ∷ cs) n e =
    parse_signed-InRange (c ∷ cs) (after_prefix (b'-' ∷ []) (c ∷ cs)) n e

pub parse_decimal_minor-InRange : (s : Text) (n : ℤ) → parse_decimal_minor s ≡ ok n → InRange n
unfolding parse_decimal_minor
parse_decimal_minor-InRange s n e = parse_trimmed-InRange (trim_space s) n e
