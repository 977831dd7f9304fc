-- ===== src/Norm/Value.antt =====
-- The number that digits spell, for internal/norm/fixed.go.
use native.Mathlib.Nat.{pow-suc, mul-le-mul_right}
use native.Mathlib.Nat.{zero-add, suc-add}
use tickstore.Prelude.{
  All, Bytes, [], arith, length, refl, suc, zero, ℕ, ◌*◌, ◌++◌, ◌+◌, ◌-◌, ◌<◌, ◌^◌, ◌∷◌, ◌≡◌, ◌≤◌,
}
use tickstore.Norm.Decimal.{value}

abbrev pub IsDigit : ℕ → Type 0
IsDigit c = (b'0' ≤ c) × (c ≤ b'9')

pub pow_pos : (n : ℕ) → 0 < 10 ^ n
pow_pos zero = omega arith
pow_pos (suc n) = omega (arith, pow-suc 10 n, pow_pos n)

times_ten : (p q r : ℕ) → r ≡ p * q → r * 10 ≡ p * 10 * q
times_ten p q r h = grind arith

pub pow_sum : (m n : ℕ) → 10 ^ (m + n) ≡ 10 ^ m * 10 ^ n
pow_sum zero n = rw (zero-add n) (omega arith)
pow_sum (suc m) n =
    rw (suc-add m n, pow-suc 10 (m + n), pow-suc 10 m)
      (times_ten (10 ^ m) (10 ^ n) (10 ^ (m + n)) (pow_sum m n))

pub value-append : (n : ℕ) (s t : Bytes) → value n (s ++ t) ≡ value (value n s) t
value-append n [] t = refl
value-append n (c ∷ s) t = value-append (n * 10 + (c - b'0')) s t

pub le-value : (n : ℕ) (s : Bytes) → n ≤ value n s
le-value n [] = omega arith
le-value n (c ∷ s) = omega (arith, le-value (n * 10 + (c - b'0')) s)

shift :
    (n d p v : ℕ) {a b : ℕ} → a ≡ (n * 10 + d) * p + v → b ≡ (0 + d) * p + v → a ≡ n * (p * 10) + b
shift n d p v h k = grind arith

-- The digits so far move up by as many places as digits follow.
pub value_shift : (n : ℕ) (s : Bytes) → value n s ≡ n * 10 ^ length s + value 0 s
value_shift n [] = omega arith
value_shift n (c ∷ s) =
    let d = c - b'0' in
    rw (pow-suc 10 (length s))
      (shift n d (10 ^ length s) (value 0 s) (value_shift (n * 10 + d) s) (value_shift (0 + d) s))

pub value-lt-pow : (s : Bytes) → All IsDigit s → value 0 s < 10 ^ length s
value-lt-pow [] h = omega arith
value-lt-pow (c ∷ s) h = bound (c - b'0') (omega (arith, h.0)) (value-lt-pow s h.1)
  where
    bound : (d : ℕ) → d ≤ 9 → value 0 s < 10 ^ length s → value (0 + d) s < 10 ^ suc (length s)
    bound d small ih = omega (
      arith,
      value_shift (0 + d) s,
      pow-suc 10 (length s),
      ih,
      mul-le-mul_right (10 ^ length s) small,
    )
