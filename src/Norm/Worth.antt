-- ===== src/Norm/Worth.antt =====
-- Lemmas about the digits of a literal and the number that it stands for.
use native.Mathlib.Nat.{mul_assoc, mul-le-mul_right}
use native.Mathlib.Decide.{dec_le}
use tickstore.Prelude.{
  All, All-drop, Bytes, [], ap, append_assoc, arith, drop, length, length-drop, length-take, min,
  refl, sym, take, take-append-drop, ℕ, ◌*◌, ◌++◌, ◌+◌, ◌-◌, ◌<◌, ◌^◌, ◌∙◌, ◌∷◌, ◌≡◌, ◌≤◌,
}
use tickstore.Norm.Decimal.{value}
use tickstore.Norm.Value.{
  IsDigit, le-value, pow_pos, pow_sum, value-append, value-lt-pow, value_shift,
}
use tickstore.Norm.Parts.{Fits, IsZero, drop_all, units}
use tickstore.Norm.Spelling.{Literal, IsWorth}

value-zeros : (s : Bytes) → All IsZero s → value 0 s ≡ 0
value-zeros [] h = refl
value-zeros (c ∷ s) h = rw h.0 (value-zeros s h.1)

zeros-value : (s : Bytes) → All IsDigit s → value 0 s ≡ 0 → All IsZero s
zeros-value [] h e = tt
zeros-value (c ∷ s) h e =
    let z : c - b'0' ≡ 0 = omega (arith, le-value (0 + (c - b'0')) s) in
    (omega (arith, z, h.0), zeros-value s h.1 (rw z at e))

-- The digits past `dp` move the others up.
value_cut :
    (whole frac : Bytes) (dp : ℕ)
    → value 0 (whole ++ frac)
      ≡ value 0 (whole ++ take dp frac) * 10 ^ length (drop dp frac) + value 0 (drop dp frac)
value_cut whole frac dp =
    let e : whole ++ frac ≡ (whole ++ take dp frac) ++ drop dp frac =
      ap (λ t. whole ++ t) (sym (take-append-drop dp frac))
      ∙ sym (append_assoc whole (take dp frac) (drop dp frac)) in
    ap (value 0) e
    ∙ value-append 0 (whole ++ take dp frac) (drop dp frac)
    ∙ value_shift (value 0 (whole ++ take dp frac)) (drop dp frac)

-- The places kept and dropped against those asked for.
power_cut :
    (frac : Bytes) (dp : ℕ)
    → 10 ^ length (drop dp frac) * 10 ^ dp ≡ 10 ^ (dp - length (take dp frac)) * 10 ^ length frac
power_cut frac dp =
    sym (pow_sum (length (drop dp frac)) dp)
    ∙ ap (λ k. 10 ^ k)
        (places (length frac) (length (take dp frac)) (length (drop dp frac)) dp
          (length-take dp frac) (length-drop dp frac))
    ∙ pow_sum (dp - length (take dp frac)) (length frac)
  where
    places : (n t d dp : ℕ) → t ≡ min dp n → d ≡ n - dp → d + dp ≡ dp - t + n
    places n t d dp h k = omega arith

scale : (v p q r n : ℕ) {w : ℕ} → w ≡ v * p + 0 → p * q ≡ r * n → w * q ≡ v * r * n
scale v p q r n h k =
    ap (λ x. x * q) (h ∙ omega arith) ∙ mul_assoc v p q ∙ ap (λ x. v * x) k ∙ sym (mul_assoc v r n)

pub IsWorth-units : (l : Literal) (dp : ℕ) → Fits l.frac dp → IsWorth l dp (units l.whole l.frac dp)
IsWorth-units l dp fits =
    scale (value 0 (l.whole ++ take dp l.frac)) (10 ^ length (drop dp l.frac)) (10 ^ dp)
      (10 ^ (dp - length (take dp l.frac))) (10 ^ length l.frac)
      (value_cut l.whole l.frac dp
        ∙ ap (λ z. value 0 (l.whole ++ take dp l.frac) * 10 ^ length (drop dp l.frac) + z)
            (value-zeros (drop dp l.frac) fits))
      (power_cut l.frac dp)

le_of_times : (a b p : ℕ) → 0 < p → a * p ≤ b * p → a ≤ b
le_of_times a b p h e = elim (dec_le a b) [
  | yes q ↦ q
  | no q ↦ let more : b + 1 ≤ a = omega arith in absurd (omega (arith, mul-le-mul_right p more))
]

cancel : (a b p : ℕ) → 0 < p → a * p ≡ b * p → a ≡ b
cancel a b p h e =
    omega (arith, le_of_times a b p h (omega (arith, e)), le_of_times b a p h (omega (arith, e)))

rest_zero : (v r m p : ℕ) → r < p → v * p + r ≡ m * p → r ≡ 0
rest_zero v r m p h e = elim (dec_le m v) [
  | yes q ↦ omega (arith, mul-le-mul_right p q)
  | no q ↦ let more : v + 1 ≤ m = omega arith in absurd (omega (arith, mul-le-mul_right p more))
]

-- A literal that is worth a whole number of units has only zeros past the places.
pub Fits-of_worth : (l : Literal) (dp m : ℕ) → All IsDigit l.frac → IsWorth l dp m → Fits l.frac dp
Fits-of_worth l dp m h e = elim (dec_le (length l.frac) dp) [
  | yes short ↦ rw (drop_all dp l.frac short) tt
  | no long ↦
      let tail = drop dp l.frac in
      let v = value 0 (l.whole ++ take dp l.frac) in
      let hd : All IsDigit tail = All-drop IsDigit dp l.frac h in
      let places : length l.frac ≡ length tail + dp = omega (arith, length-drop dp l.frac) in
      let n : 10 ^ length l.frac ≡ 10 ^ length tail * 10 ^ dp =
        ap (λ k. 10 ^ k) places ∙ pow_sum (length tail) dp in
      let worth : (v * 10 ^ length tail + value 0 tail) * 10 ^ dp ≡ m * 10 ^ length tail * 10 ^ dp =
        ap (λ x. x * 10 ^ dp) (sym (value_cut l.whole l.frac dp))
        ∙ e
        ∙ ap (λ x. m * x) n
        ∙ sym (mul_assoc m (10 ^ length tail) (10 ^ dp)) in
      zeros-value tail hd (
        rest_zero v (value 0 tail) m (10 ^ length tail) (value-lt-pow tail hd) (
          cancel (v * 10 ^ length tail + value 0 tail) (m * 10 ^ length tail) (10 ^ dp) (pow_pos dp)
            worth))
]

pub units_of_worth :
    (l : Literal) (dp m : ℕ) → All IsDigit l.frac → IsWorth l dp m → units l.whole l.frac dp ≡ m
units_of_worth l dp m h e =
    cancel (units l.whole l.frac dp) m (10 ^ length l.frac) (pow_pos (length l.frac))
      (sym (IsWorth-units l dp (Fits-of_worth l dp m h e)) ∙ e)
