-- ===== src/Norm/Parts.antt =====
-- Lemmas about what `ParseFixed` makes of an integer part and a fractional part.
use native.Mathlib.Nat.{mul-le-mul_left}
use tickstore.Prelude.{
  All, All-take, Bool, Bool-cases, Bytes, Result, [], arith, drop, err, if◌then◌else◌, inl, inr,
  length, ltb, ltb→lt, max_i64, neg_ℤ, ok, pos, refl, suc, take, take_all, wrap64, zero, ℕ, ℤ, ◌*◌,
  ◌++◌, ◌-◌, ◌<◌, ◌>>=◌, ◌^◌, ◌∷◌, ◌≡◌, ◌≤◌,
}
use tickstore.Norm.Decimal.{value}
use tickstore.Norm.Value.{IsDigit, le-value, pow_pos, value-append}
use tickstore.Norm.Fixed.{
  FixedError, check_digits, fit_fraction, keep_front, pad_zeros, parse_parts, read_digits,
  too_many_places, trim_zeros,
}
use tickstore.Norm.ReadDigits.{
  in_range, not_over, out_of_range, pad_zeros_lem, read_digits-value, within,
}

pub check_digits-ok : (s : Bytes) → All IsDigit s → check_digits s ≡ ok tt
unfolding check_digits
check_digits-ok [] h = refl
check_digits-ok (c ∷ s) h = ground (arith, check_digits-ok s h.1)

pub digits_of_check : (s : Bytes) → check_digits s ≡ ok tt → All IsDigit s
unfolding check_digits
digits_of_check [] h = tt
digits_of_check (c ∷ s) h = ground (arith, digits_of_check s)

abbrev pub IsZero : ℕ → Type 0
IsZero c = c ≡ b'0'

pub trim_zeros-nil : (s : Bytes) → All IsZero s → trim_zeros s ≡ []
unfolding trim_zeros
trim_zeros-nil [] h = refl
trim_zeros-nil (c ∷ s) h = rw (trim_zeros-nil s h.1) (ground (arith, h.0))

keep_front-nil : (c : ℕ) (r : Bytes) → keep_front c r ≡ [] → (r ≡ []) × (c ≡ b'0')
keep_front-nil c [] h = ground arith
keep_front-nil c (d ∷ r) h = absurd (cc)

pub zeros_of_trim : (s : Bytes) → trim_zeros s ≡ [] → All IsZero s
unfolding trim_zeros
zeros_of_trim [] h = tt
zeros_of_trim (c ∷ s) h =
    let (rest, zero_front) = keep_front-nil c (trim_zeros s) h in (zero_front, zeros_of_trim s rest)

-- The fraction fits in `dp` places, or what is past them are zeros.
abbrev pub Fits : Bytes → ℕ → Type 0
Fits frac dp = All IsZero (drop dp frac)

pub fit_fraction-take :
    (frac : Bytes) (dp : ℕ) → Fits frac dp → fit_fraction frac dp ≡ ok (take dp frac)
unfolding fit_fraction
fit_fraction-take frac dp h = elim (Bool-cases (ltb dp (length frac))) [
  | inl long ↦ rw (long, trim_zeros-nil (drop dp frac) h)
  | inr short ↦ rw (short, take_all dp frac (ground arith))
]

pub drop_all : (n : ℕ) (s : Bytes) → length s ≤ n → drop n s ≡ []
drop_all zero [] h = refl
drop_all zero (c ∷ s) h = absurd (omega arith)
drop_all (suc n) [] h = refl
drop_all (suc n) (c ∷ s) h = drop_all n s (omega arith)

pub Fits-of_fit : (frac kept : Bytes) (dp : ℕ) → fit_fraction frac dp ≡ ok kept → Fits frac dp
unfolding fit_fraction
Fits-of_fit frac kept dp h = elim (Bool-cases (ltb dp (length frac))) [
  | inl long ↦ zeros_of_trim (drop dp frac) (empty (trim_zeros (drop dp frac)) (rw long at h))
  | inr short ↦ rw (drop_all dp frac (ground arith)) tt
]
  where
    empty :
        (r : Bytes)
        → elim r as (λ x. Result FixedError Bytes) [
          | [] ↦ ok (take dp frac)
          | _ ↦ err too_many_places
        ]
          ≡ ok kept
        → r ≡ []
    empty [] e = refl
    empty (c ∷ r) e = absurd (cc)

-- The sign, at the end.
abbrev pub signed : Bool → ℤ → ℤ
signed neg v = if neg then wrap64 (neg_ℤ v) else v

abbrev finish : Bool → ℕ → Bytes → ℤ → Result FixedError ℤ
finish neg k kept w = do all ← read_digits kept w; v ← pad_zeros k all; ok (signed neg v)

le-times_pow : (n k : ℕ) → n ≤ n * 10 ^ k
le-times_pow n k = omega (arith, mul-le-mul_left n (pow_pos k))

finish_lem :
    (neg : Bool) (k w : ℕ) (kept : Bytes)
    → k ≤ 18
    → All IsDigit kept
    → w ≤ max_i64
    → finish neg k kept (pos w) ≡ (in_range (value w kept * 10 ^ k) >>= λ v. ok (signed neg v))
finish_lem neg k w kept hk h hw = elim (Bool-cases (ltb max_i64 (value w kept))) [
  | inl over ↦
      let past : max_i64 < value w kept = ltb→lt _ _ over in
      rw (
        read_digits-value kept w h hw,
        out_of_range (value w kept) past,
        out_of_range (value w kept * 10 ^ k) (omega (arith, past, le-times_pow (value w kept) k)),
      )
  | inr fits ↦
      let small : value w kept ≤ max_i64 = not_over (value w kept) fits in
      rw (
        read_digits-value kept w h hw,
        within (value w kept) small,
        pad_zeros_lem k (value w kept) hk small,
      )
]

-- The units of 10^-dp that the digits of both parts spell.
abbrev pub units : Bytes → Bytes → ℕ → ℕ
units whole frac dp = value 0 (whole ++ take dp frac) * 10 ^ (dp - length (take dp frac))

-- Two parts of digits, of which the fraction fits: the units under the sign, or an overflow where
-- they pass 2^63 - 1.
pub parse_parts-units :
    (neg : Bool) (whole frac : Bytes) (dp : ℕ)
    → dp ≤ 18
    → All IsDigit whole
    → All IsDigit frac
    → Fits frac dp
    → parse_parts neg whole frac dp ≡ (in_range (units whole frac dp) >>= λ v. ok (signed neg v))
unfolding parse_parts
parse_parts-units neg whole frac dp hdp hw hf fits =
    let k = dp - length (take dp frac) in
    let w = value 0 whole in
    let kept = take dp frac in
    let hk : All IsDigit kept = All-take IsDigit dp frac hf in
    rw
      (
        check_digits-ok whole hw,
        check_digits-ok frac hf,
        fit_fraction-take frac dp fits,
        read_digits-value whole 0 hw (omega arith),
        value-append 0 whole kept,
      )
      (elim (Bool-cases (ltb max_i64 w)) [
        | inl over ↦
            let past : max_i64 < w = ltb→lt _ _ over in
            rw (
              out_of_range w past,
              out_of_range (value w kept * 10 ^ k)
                  (omega (arith, past, le-value w kept, le-times_pow (value w kept) k)),
            )
        | inr small ↦
            rw (within w (not_over w small))
              (finish_lem neg k w kept (omega arith) hk (not_over w small))
      ])
