-- ===== src/Norm/RoundTrip.antt =====
-- `FormatFixed` of internal/norm/fixed.go, followed by `ParseFixed`.
use native.Mathlib.Nat.{div-add-mod', mod-lt, mod-le, div-le_self}
use tickstore.Prelude.{
  Bytes, IsI64, [], ap, append-nil, arith, bytes_eq, err, false, if◌then◌else◌, int_eq, leb, length,
  ltb_ℤ, max_i64, nat_eq, neg_part, neg_ℤ, negsuc, ok, pos, pos_part, refl, some, suc, to_u64, true,
  u64_mod, zero, ℕ, ℤ, ◌%◌, ◌++◌, ◌+◌, ◌-◌, ◌/◌, ◌<◌, ◌==◌, ◌^◌, ◌∙◌, ◌≡◌, ◌≤◌,
}
use tickstore.Norm.Decimal.{format_padded, format_uint, value}
use tickstore.Norm.Value.{pow_pos, value-append, value_shift}
use tickstore.Norm.ReadDigits.{pow10_lem}
use tickstore.Norm.Fixed.{format_fixed, overflow, parse_fixed}
use tickstore.Norm.Spelling.{IsLiteral, IsWorth, Literal, Mark, bare, minus, spell}
use tickstore.Norm.Literal.{parse_fixed_complete, under}
use tickstore.Norm.Numerals.{
  format_padded-IsDigit, format_uint-IsDigit, format_uint-has_digit, length-format_padded,
  value-format_padded, value-format_uint,
}

abbrev pub magnitude : ℤ → ℕ
magnitude v = pos_part v + neg_part v

abbrev sign_of : ℤ → Mark
sign_of v = if ltb_ℤ v (pos 0) then minus else bare

-- The literal that is printed.
abbrev printed : ℤ → ℕ → Literal
printed v zero = record {
  mark = sign_of v;
  whole = format_uint (magnitude v);
  dotted = false;
  frac = [];
}
printed v (suc k) = record {
  mark = sign_of v;
  whole = format_uint (magnitude v / 10 ^ suc k);
  dotted = true;
  frac = format_padded (suc k) (magnitude v % 10 ^ suc k);
}

is_negative : (n : ℕ) → ltb_ℤ (negsuc n) (pos 0) ≡ true
is_negative n = ground arith

is_positive : (n : ℕ) → ltb_ℤ (pos n) (pos 0) ≡ false
is_positive n = ground arith

bits-pos : (n : ℕ) → IsI64 (pos n) → to_u64 (pos n) ≡ n + 0
unfolding to_u64
bits-pos n h = omega (arith, h.0)

bits-negsuc : (n : ℕ) → IsI64 (negsuc n) → (u64_mod - to_u64 (negsuc n)) % u64_mod ≡ 0 + suc n
unfolding to_u64
bits-negsuc n h = omega (arith, h.1)

in_table : (k : ℕ) → k ≤ 18 → ltb_ℤ (pos 18) (pos k) ≡ false
in_table k h = ground arith

some_places : (k : ℕ) → (suc k == 0) ≡ false
some_places k = ground arith

format_fixed-printed :
    (v : ℤ) (dp : ℕ) → IsI64 v → dp ≤ 18 → format_fixed v (pos dp) ≡ some (spell (printed v dp))
unfolding format_fixed
format_fixed-printed (pos n) zero h hdp =
    rw (is_positive n, bits-pos n h, append-nil (format_uint (n + 0))) refl
format_fixed-printed (negsuc n) zero h hdp =
    rw (is_negative n, bits-negsuc n h, append-nil (format_uint (0 + suc n))) refl
format_fixed-printed (pos n) (suc k) h hdp =
    rw
      (
        is_positive n,
        bits-pos n h,
        is_positive (suc k),
        in_table (suc k) hdp,
        some_places k,
        pow10_lem (suc k) hdp,
      )
      refl
format_fixed-printed (negsuc n) (suc k) h hdp =
    rw
      (
        is_negative n,
        bits-negsuc n h,
        is_positive (suc k),
        in_table (suc k) hdp,
        some_places k,
        pow10_lem (suc k) hdp,
      )
      refl

printed-IsLiteral : (v : ℤ) (dp : ℕ) → IsLiteral (printed v dp)
printed-IsLiteral v zero = record {
  whole_digits = format_uint-IsDigit (magnitude v);
  frac_digits = tt;
  undotted = λ e. refl;
  has_digit = rw (format_uint-has_digit (magnitude v)) refl;
}
printed-IsLiteral v (suc k) = record {
  whole_digits = format_uint-IsDigit (magnitude v / 10 ^ suc k);
  frac_digits = format_padded-IsDigit (suc k) (magnitude v % 10 ^ suc k);
  undotted = λ e. absurd (cc (e));
  has_digit = rw (format_uint-has_digit (magnitude v / 10 ^ suc k)) refl;
}

magnitude-lt : (v : ℤ) → IsI64 v → magnitude v < u64_mod
magnitude-lt v h = omega (arith, h.0, h.1)

split_value :
    (whole frac : Bytes) (a p : ℕ)
    → 10 ^ length frac ≡ p
    → value 0 whole ≡ a / p
    → value 0 frac ≡ a % p
    → value 0 (whole ++ frac) ≡ a
split_value whole frac a p e h k =
    value-append 0 whole frac ∙ value_shift (value 0 whole) frac ∙ rw (e, h, k) (div-add-mod' a p)

printed-IsWorth : (v : ℤ) (dp : ℕ) → IsI64 v → IsWorth (printed v dp) dp (magnitude v)
printed-IsWorth v zero h =
    rw (append-nil (format_uint (magnitude v)), value-format_uint (magnitude v) (magnitude-lt v h))
      refl
printed-IsWorth v (suc k) h =
    let a = magnitude v in
    let p = 10 ^ suc k in
    let below : a % p < p = mod-lt a (pow_pos (suc k)) in
    let len : length (format_padded (suc k) (a % p)) ≡ suc k =
      length-format_padded k (a % p) below in
    let small : a / p ≤ a = div-le_self a p in
    let part : a % p ≤ a = mod-le a p in
    rw
      (
        len,
        split_value (format_uint (a / p)) (format_padded (suc k) (a % p)) a p (ap (λ n. 10 ^ n) len)
            (value-format_uint (a / p) (omega (arith, magnitude-lt v h)))
            (value-format_padded (suc k) (a % p) (omega (arith, magnitude-lt v h))),
      )
      refl

under-printed : (v : ℤ) (dp : ℕ) → under (printed v dp).mark (magnitude v) ≡ v
under-printed (pos n) zero = rw (is_positive n) (ap pos (omega arith))
under-printed (pos n) (suc k) = rw (is_positive n) (ap pos (omega arith))
under-printed (negsuc n) zero = rw (is_negative n) (unfold neg_ℤ in ground arith)
under-printed (negsuc n) (suc k) = rw (is_negative n) (unfold neg_ℤ in ground arith)

-- Every `int64` prints at 0 to 18 decimal places, and the text printed is read back at as many as the
-- same number; only the least one, -2^63, is refused as an overflow.
pub parse_fixed-format_fixed :
    (v : ℤ) (dp : ℕ)
    → IsI64 v
    → dp ≤ 18
    → (s : Bytes) × (format_fixed v (pos dp) ≡ some s)
      × (parse_fixed s (pos dp) ≡ (if leb (magnitude v) max_i64 then ok v else err overflow))
parse_fixed-format_fixed v dp h hdp = (
  spell (printed v dp),
  format_fixed-printed v dp h hdp,
  parse_fixed_complete (printed v dp) dp (magnitude v) (printed-IsLiteral v dp) hdp
        (printed-IsWorth v dp h)
      ∙ rw (under-printed v dp) refl,
)
