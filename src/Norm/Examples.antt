-- ===== src/Norm/Examples.antt =====
-- Runs of internal/norm on concrete inputs, those of fixed_test.go among them.
use mathlib.Core.Bool.{true≢false}
use tickstore.Norm.Spelling.{IsLiteral, Literal, minus, spell}
use tickstore.Norm.Literal.{parse_fixed_complete, under}
use tickstore.Norm.Sound.{Read, parse_fixed_sound}
use tickstore.Norm.RoundTrip.{magnitude, parse_fixed-format_fixed}
use tickstore.Prelude.{
  Bytes, arith, codes, err, if◌then◌else◌, leb, max_i64, neg_ℤ, negsuc, none, ok, pos, quot_ℤ, refl,
  some, to_u64, true, wrap64, ℕ, ◌*ℤ◌, ◌+ℤ◌, ◌≡◌, ◌≤◌,
}
use tickstore.Norm.Fixed.{
  bad_decimal_places, empty_number, format_fixed, invalid_character, overflow, parse_fixed, pow10,
  too_many_places,
}

typical_price : parse_fixed (codes "50123.45") (pos 8) ≡ ok (pos 5012345000000)
unfolding parse_fixed wrap64 quot_ℤ ◌+ℤ◌ ◌*ℤ◌ neg_ℤ
typical_price = refl

max_int64 : parse_fixed (codes "92233720368.54775807") (pos 8) ≡ ok (pos 9223372036854775807)
unfolding parse_fixed wrap64 quot_ℤ ◌+ℤ◌ ◌*ℤ◌ neg_ℤ
max_int64 = refl

parse_errors :
    (parse_fixed (codes "-") (pos 8) ≡ err empty_number)
    × (parse_fixed (codes "1.2.3") (pos 8) ≡ err invalid_character)
    × (parse_fixed (codes "1.234") (pos 2) ≡ err too_many_places)
    × (parse_fixed (codes "92233720368.54775808") (pos 8) ≡ err overflow)
    × (parse_fixed (codes "92233720369") (pos 8) ≡ err overflow)
    × (parse_fixed (codes "1") (pos 19) ≡ err bad_decimal_places)
    × (parse_fixed (codes "1") (negsuc 0) ≡ err bad_decimal_places)
unfolding parse_fixed wrap64 quot_ℤ ◌+ℤ◌ ◌*ℤ◌ neg_ℤ
parse_errors = (refl, refl, refl, refl, refl, refl, refl)

extra_zeros : parse_fixed (codes "-1.230000000000") (pos 2) ≡ ok (negsuc 122)
unfolding parse_fixed wrap64 quot_ℤ ◌+ℤ◌ ◌*ℤ◌ neg_ℤ
extra_zeros = refl

format_min_int64 :
    format_fixed (negsuc 9223372036854775807) (pos 8) ≡ some (codes "-92233720368.54775808")
unfolding format_fixed to_u64 tickstore.Norm.Decimal.format_uint tickstore.Norm.Fixed.pow10
    tickstore.Norm.Decimal.format_padded
format_min_int64 = refl

format_panics : format_fixed (pos 1) (pos 19) ≡ none
unfolding format_fixed to_u64 tickstore.Norm.Decimal.format_uint tickstore.Norm.Fixed.pow10
    tickstore.Norm.Decimal.format_padded
format_panics = refl

-- -1.50
abbrev one_and_a_half : Literal
one_and_a_half = record { mark = minus; whole = codes "1"; dotted = true; frac = codes "50" }

one_and_a_half-IsLiteral : IsLiteral one_and_a_half
one_and_a_half-IsLiteral = record {
  whole_digits = ((omega arith, omega arith), tt);
  frac_digits = ((omega arith, omega arith), ((omega arith, omega arith), tt));
  undotted = λ e. absurd (true≢false e);
  has_digit = refl;
}

parse_fixed_complete_example :
    parse_fixed (spell one_and_a_half) (pos 1)
    ≡ (if leb 15 max_i64 then ok (under one_and_a_half.mark 15) else err overflow)
parse_fixed_complete_example =
    parse_fixed_complete one_and_a_half 1 15 one_and_a_half-IsLiteral (omega arith) refl

parse_fixed_sound_example :
    (n : ℕ) × (pos 8 ≡ pos n) × (n ≤ 18) × Read (codes "50123.45") n (pos 5012345000000)
parse_fixed_sound_example =
    parse_fixed_sound (codes "50123.45") (pos 8) (pos 5012345000000) typical_price

parse_fixed-format_fixed_example :
    (s : Bytes) × (format_fixed (negsuc 149) (pos 2) ≡ some s)
    × (parse_fixed s (pos 2)
        ≡ (if leb (magnitude (negsuc 149)) max_i64 then ok (negsuc 149) else err overflow))
parse_fixed-format_fixed_example =
    parse_fixed-format_fixed (negsuc 149) 2 (omega arith, omega arith) (omega arith)
