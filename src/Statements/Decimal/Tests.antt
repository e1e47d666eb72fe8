-- ===== src/Statements/Decimal/Tests.antt =====
-- "-12.340", and texts that are not decimals but are read all the same.
use cobalt_dingo.Prelude.{◌≡◌, refl, true, [], ◌∷◌, ok, arith}
use cobalt_dingo.Prelude.Int.{pos, ◌-ℤ◌}
use cobalt_dingo.Prelude.Text.{trim_space, trim_left, trim_right, after_prefix, is_space}
use cobalt_dingo.Prelude.Int64.{wrap64}
use cobalt_dingo.Statements.Decimal.{
  cut_dot, skip_space, scan_digits, scan_int, parse_unsigned, parse_decimal_minor, all_zero,
}
use cobalt_dingo.Statements.Decimal.Exact.{written, amount, parse_decimal_minor-written}

parse_decimal_minor-written_example :
    parse_decimal_minor (written true (1 ∷ 2 ∷ []) 3 4 1) ≡ ok (amount true 1234)
parse_decimal_minor-written_example =
    parse_decimal_minor-written true (1 ∷ 2 ∷ []) 3 4 1 (omega arith, (omega arith, tt))
      (omega arith) (omega arith) (omega arith)

-- "1,234.50" is read as one minor unit: the digits end at the comma.
comma :
    parse_decimal_minor (b'1' ∷ b',' ∷ b'2' ∷ b'3' ∷ b'4' ∷ b'.' ∷ b'5' ∷ b'0' ∷ []) ≡ ok (pos 1)
unfolding parse_decimal_minor parse_unsigned cut_dot scan_int skip_space scan_digits trim_space
    trim_left trim_right after_prefix is_space all_zero
comma = refl

-- "--5.00" is read as 500: the second sign is that of the scanned number.
two_signs : parse_decimal_minor (b'-' ∷ b'-' ∷ b'5' ∷ b'.' ∷ b'0' ∷ b'0' ∷ []) ≡ ok (pos 500)
unfolding parse_decimal_minor parse_unsigned cut_dot scan_int skip_space scan_digits trim_space
    trim_left trim_right after_prefix is_space all_zero ◌-ℤ◌ wrap64
two_signs = refl
