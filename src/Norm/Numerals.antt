-- ===== src/Norm/Numerals.antt =====
-- Lemmas about the digits, the value and the length of a printed numeral.
use native.Mathlib.Nat.{pow-suc}
use tickstore.Prelude.{
  All, All-append, Bool-cases, Bytes, [], arith, false, inl, inr, length, length-append,
  length-replicate, ltb, ltb→lt, refl, replicate, suc, u64_mod, zero, ℕ, ◌%◌, ◌*◌, ◌++◌, ◌+◌, ◌-◌,
  ◌/◌, ◌<◌, ◌^◌, ◌∷◌, ◌≡◌, ◌≤◌,
}
use tickstore.Norm.Decimal.{digits, format_padded, format_uint, value}
use tickstore.Norm.Value.{IsDigit, value-append}
use tickstore.Norm.Fixed.{is_empty}

tenth : (n p : ℕ) → n < p * 10 → n / 10 < p
tenth n p h = omega arith

-- Enough fuel for every digit.
digits-IsDigit : (f n : ℕ) → All IsDigit (digits f n)
unfolding digits
digits-IsDigit zero n = tt
digits-IsDigit (suc f) n = elim (Bool-cases (ltb n 10)) [
  | inl one ↦ rw one ((omega arith, omega (arith, ltb→lt n 10 one)), tt)
  | inr more ↦ rw more (
      All-append IsDigit (digits f (n / 10)) ((b'0' + n % 10) ∷ []) (digits-IsDigit f (n / 10))
        ((omega arith, omega arith), tt))
]

value-digits : (f n : ℕ) → n < 10 ^ f → value 0 (digits f n) ≡ n
unfolding digits
value-digits zero n h = omega arith
value-digits (suc f) n h = elim (Bool-cases (ltb n 10)) [
  | inl one ↦ rw one (omega arith)
  | inr more ↦
      rw
        (
          more,
          value-append 0 (digits f (n / 10)) ((b'0' + n % 10) ∷ []),
          value-digits f (n / 10) (tenth n (10 ^ f) (omega (arith, pow-suc 10 f))),
        )
        (omega arith)
]

rest :
    (f w n : ℕ)
    → n < 10 ^ suc w
    → 10 ≤ n
    → ((w' : ℕ) → n / 10 < 10 ^ suc w' → length (digits f (n / 10)) ≤ suc w')
    → length (digits f (n / 10) ++ (b'0' + n % 10) ∷ []) ≤ suc w
rest f zero n h big ih = absurd (omega arith)
rest f (suc w) n h big ih = omega (
  arith,
  length-append (digits f (n / 10)) ((b'0' + n % 10) ∷ []),
  ih w (tenth n (10 ^ suc w) (omega (arith, pow-suc 10 (suc w)))),
)

length-digits : (f w n : ℕ) → n < 10 ^ suc w → length (digits f n) ≤ suc w
unfolding digits
length-digits zero w n h = omega arith
length-digits (suc f) w n h = elim (Bool-cases (ltb n 10)) [
  | inl one ↦ rw one (omega arith)
  | inr more ↦ rw more (rest f w n h (ground (arith, more)) (λ w'. length-digits f w' (n / 10)))
]

digits-has_digit : (f n : ℕ) → is_empty (digits (suc f) n) ≡ false
unfolding digits
digits-has_digit f n = elim (Bool-cases (ltb n 10)) [
  | inl one ↦ rw one refl
  | inr more ↦ rw more (behind (digits f (n / 10)))
]
  where
    behind : (xs : Bytes) → is_empty (xs ++ (b'0' + n % 10) ∷ []) ≡ false
    behind [] = refl
    behind (x ∷ xs) = refl

pub format_uint-IsDigit : (n : ℕ) → All IsDigit (format_uint n)
unfolding format_uint
format_uint-IsDigit n = digits-IsDigit 20 n

pub value-format_uint : (n : ℕ) → n < u64_mod → value 0 (format_uint n) ≡ n
unfolding format_uint
value-format_uint n h = value-digits 20 n (omega arith)

pub format_uint-has_digit : (n : ℕ) → is_empty (format_uint n) ≡ false
unfolding format_uint
format_uint-has_digit n = digits-has_digit 19 n

zeros-IsDigit : (k : ℕ) → All IsDigit (replicate k b'0')
zeros-IsDigit zero = tt
zeros-IsDigit (suc k) = ((omega arith, omega arith), zeros-IsDigit k)

value_zeros : (k : ℕ) → value 0 (replicate k b'0') ≡ 0
value_zeros zero = refl
value_zeros (suc k) = value_zeros k

pub format_padded-IsDigit : (w n : ℕ) → All IsDigit (format_padded w n)
unfolding format_padded
format_padded-IsDigit w n =
    All-append IsDigit (replicate (w - length (format_uint n)) b'0') (format_uint n)
      (zeros-IsDigit (w - length (format_uint n))) (format_uint-IsDigit n)

pub value-format_padded : (w n : ℕ) → n < u64_mod → value 0 (format_padded w n) ≡ n
unfolding format_padded
value-format_padded w n h =
    let k = w - length (format_uint n) in
    rw (value-append 0 (replicate k b'0') (format_uint n), value_zeros k) (value-format_uint n h)

pub length-format_padded : (w n : ℕ) → n < 10 ^ suc w → length (format_padded (suc w) n) ≡ suc w
unfolding format_padded
length-format_padded w n h =
    let small : length (format_uint n) ≤ suc w = unfold format_uint in length-digits 20 w n h in
    let k = suc w - length (format_uint n) in
    omega (arith, length-append (replicate k b'0') (format_uint n), length-replicate {A = ℕ} k b'0')
