-- ===== src/Norm/Fixed.antt =====
-- internal/norm/fixed.go: decimal text to fixed-point `int64` and back.
use tickstore.Prelude.{
  Bool, Bytes, List, Option, Result, [], bytes_eq, drop, err, false, get_elem?, if◌then◌else◌,
  int_eq, length, ltb, ltb_ℤ, max_i64, nat_eq, neg_ℤ, none, ok, pos, pos_part, quot_ℤ, some, suc,
  take, to_u64, true, u64_mod, wrap64, zero, ℕ, ℤ, ◌%◌, ◌&&◌, ◌*ℤ◌, ◌++◌, ◌+ℤ◌, ◌+◌, ◌-◌, ◌/◌, ◌==◌,
  ◌>>=◌, ◌>>◌, ◌||◌, ◌∷◌,
}
use tickstore.Norm.Decimal.{format_padded, format_uint}

pub data FixedError : Type 0 where
  bad_decimal_places empty_number invalid_character too_many_places overflow : FixedError

-- The table `pow10`, and an index into it.
abbrev pow10_table : List ℕ
pow10_table =
    1 ∷ 10 ∷ 100 ∷ 1_000 ∷ 10_000 ∷ 100_000 ∷ 1_000_000 ∷ 10_000_000 ∷ 100_000_000 ∷ 1_000_000_000
    ∷ 10_000_000_000 ∷ 100_000_000_000 ∷ 1_000_000_000_000 ∷ 10_000_000_000_000
    ∷ 100_000_000_000_000 ∷ 1_000_000_000_000_000 ∷ 10_000_000_000_000_000 ∷ 100_000_000_000_000_000
    ∷ 1_000_000_000_000_000_000 ∷ []

-- For an `i` below 19: past the end of the table Go panics.
unfoldable pub pow10 : ℕ → ℕ
pow10 i = elim (get_elem? pow10_table i) [ some p ↦ p | none ↦ 0 ]

-- The sign of `s`, and what stands behind it.
unfoldable pub cut_sign : Bytes → Bool × Bytes
cut_sign [] = (false, [])
cut_sign (c ∷ s) = if c == b'-' then (true, s) else if c == b'+' then (false, s) else (false, c ∷ s)

-- `strings.Cut(s, ".")`
unfoldable pub cut_dot : Bytes → Bytes × Bytes
cut_dot [] = ([], [])
cut_dot (c ∷ s) = let (front, back) = cut_dot s in if c == b'.' then ([], s) else (c ∷ front, back)

unfoldable pub check_digits : Bytes → Result FixedError (Unit {0})
check_digits [] = ok tt
check_digits (c ∷ s) = if ltb c b'0' || ltb b'9' c then err invalid_character else check_digits s

-- `c` in front of what is left of the text behind it.
abbrev pub keep_front : ℕ → Bytes → Bytes
keep_front c [] = if c == b'0' then [] else c ∷ []
keep_front c (d ∷ r) = c ∷ d ∷ r

-- `strings.TrimRight(s, "0")`
unfoldable pub trim_zeros : Bytes → Bytes
trim_zeros [] = []
trim_zeros (c ∷ s) = keep_front c (trim_zeros s)

-- Fractional digits past `dp` are dropped if they are zeros.
unfoldable pub fit_fraction : Bytes → ℕ → Result FixedError Bytes
unfolding trim_zeros
fit_fraction frac dp =
    if ltb dp (length frac)
    then elim (trim_zeros (drop dp frac)) [ [] ↦ ok (take dp frac) | _ ↦ err too_many_places ]
    else ok frac

-- The inner loop: one more digit, in `int64`.
unfoldable pub read_digits : Bytes → ℤ → Result FixedError ℤ
read_digits [] v = ok v
read_digits (c ∷ s) v =
    let d = (c + 256 - b'0') % 256 in
    if ltb_ℤ (quot_ℤ (wrap64 (pos max_i64 +ℤ neg_ℤ (pos d))) 10) v
    then err overflow
    else read_digits s (wrap64 (wrap64 (v *ℤ pos 10) +ℤ pos d))

-- Zeros for the decimal places that the input left off.
unfoldable pub pad_zeros : ℕ → ℤ → Result FixedError ℤ
pad_zeros zero v = ok v
pad_zeros (suc k) v =
    if ltb_ℤ (pos (max_i64 / pow10 (suc k))) v
    then err overflow
    else ok (wrap64 (v *ℤ pos (pow10 (suc k))))

abbrev pub is_empty : Bytes → Bool
is_empty [] = true
is_empty (c ∷ s) = false

-- The digits of both parts into one number, which is then negated where the text had a minus.
unfoldable pub parse_parts : Bool → Bytes → Bytes → ℕ → Result FixedError ℤ
unfolding check_digits fit_fraction read_digits pad_zeros pow10
parse_parts neg int_part frac_part dp = do
  check_digits int_part
  check_digits frac_part
  kept ← fit_fraction frac_part dp
  whole ← read_digits int_part (pos 0)
  all ← read_digits kept whole
  v ← pad_zeros (dp - length kept) all
  ok (if neg then wrap64 (neg_ℤ v) else v)

-- `ParseFixed` behind the test of `dp`.
unfoldable pub parse_at : Bytes → ℕ → Result FixedError ℤ
unfolding cut_sign cut_dot
parse_at s dp =
    let (neg, unsigned) = cut_sign s in
    let (int_part, frac_part) = cut_dot unsigned in
    if is_empty int_part && is_empty frac_part
    then err empty_number
    else parse_parts neg int_part frac_part dp

unfoldable pub parse_fixed : Bytes → ℤ → Result FixedError ℤ
unfolding parse_at parse_parts
parse_fixed s dp =
    if ltb_ℤ dp (pos 0) || ltb_ℤ (pos 18) dp
    then err bad_decimal_places
    else parse_at s (pos_part dp)

-- `none` is the panic.
unfoldable pub format_fixed : ℤ → ℤ → Option Bytes
format_fixed v dp =
    let neg = ltb_ℤ v (pos 0) in
    let sign = if neg then b'-' ∷ [] else [] in
    let uv = if neg then (u64_mod - to_u64 v) % u64_mod else to_u64 v in
    let places = pos_part dp in
    let scale = pow10 places in
    if ltb_ℤ dp (pos 0) || ltb_ℤ (pos 18) dp
    then none
    else some (
        if places == 0
        then sign ++ format_uint uv
        else sign ++ (format_uint (uv / scale) ++ b'.' ∷ format_padded places (uv % scale)))

-- The text that a caller prints; a panic prints nothing.
abbrev pub text_of : Option Bytes → Bytes
text_of none = []
text_of (some s) = s
