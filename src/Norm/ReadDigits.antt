-- ===== src/Norm/ReadDigits.antt =====
-- Lemmas about the digit loop of `ParseFixed` in internal/norm/fixed.go, and the padding with
-- zeros.
use tickstore.Prelude.{
  All, Bool, Bool-cases, Bytes, Result, [], arith, bytes_eq, err, false, if◌then◌else◌, inl, inr,
  int_eq, leb, ltb, ltb_ℤ, ltb→lt, max_i64, nat_beq_iff, nat_eq, neg_ℤ, ok, pos, quot_ℤ, refl, suc,
  sym, true, wrap64, zero, ℕ, ℤ, ◌%◌, ◌&&◌, ◌*ℤ◌, ◌*◌, ◌+ℤ◌, ◌+◌, ◌-◌, ◌/◌, ◌<◌, ◌==◌, ◌^◌, ◌∙◌,
  ◌∷◌, ◌≡◌, ◌≤◌,
}
use tickstore.Norm.Decimal.{value}
use tickstore.Norm.Value.{IsDigit, le-value, pow_pos}
use tickstore.Norm.Fixed.{FixedError, overflow, pad_zeros, pow10, read_digits}

-- The overflow test, at a digit.
read_test :
    (n d : ℕ)
    → d ≤ 9
    → ltb_ℤ (quot_ℤ (wrap64 (pos max_i64 +ℤ neg_ℤ (pos d))) 10) (pos n) ≡ ltb ((max_i64 - d) / 10) n
unfolding quot_ℤ wrap64 ◌+ℤ◌ neg_ℤ
read_test n d h = ground arith

read_next :
    (n d : ℕ) → n * 10 + d ≤ max_i64 → wrap64 (wrap64 (pos n *ℤ pos 10) +ℤ pos d) ≡ pos (n * 10 + d)
unfolding wrap64 ◌+ℤ◌ ◌*ℤ◌
read_next n d h = ground arith

-- A number in `int64`, or the overflow.
abbrev pub in_range : ℕ → Result FixedError ℤ
in_range m = if leb m max_i64 then ok (pos m) else err overflow

pub out_of_range : (m : ℕ) → max_i64 < m → in_range m ≡ err overflow
out_of_range m h = ground arith

pub read_digits-value :
    (s : Bytes) (n : ℕ) → All IsDigit s → n ≤ max_i64 → read_digits s (pos n) ≡ in_range (value n s)
unfolding read_digits
read_digits-value [] n h fits = ground arith
read_digits-value (c ∷ s) n h fits =
    let d = c - b'0' in
    let e : (c + 256 - b'0') % 256 ≡ d = omega (arith, h.0) in
    rw (e, read_test n d (omega (arith, h.0)))
      (elim (Bool-cases (ltb ((max_i64 - d) / 10) n)) [
        | inl over ↦
            let past : max_i64 < n * 10 + d = omega (arith, h.0, ltb→lt _ _ over) in
            rw over (
              sym (
                out_of_range (value (n * 10 + d) s) (omega (arith, past, le-value (n * 10 + d) s))))
        | inr below ↦
            let small : n * 10 + d ≤ max_i64 = ground (arith, h.0) in
            rw (below, read_next n d small) (read_digits-value s (n * 10 + d) h.1 small)
      ])

holds_below : (ℕ → Bool) → ℕ → Bool
holds_below test zero = true
holds_below test (suc k) = holds_below test k && test k

holds_below_sound :
    (test : ℕ → Bool) (bound k : ℕ) → k < bound → holds_below test bound ≡ true → test k ≡ true
unfolding holds_below
holds_below_sound test zero k small h = absurd (omega arith)
holds_below_sound test (suc bound) k small h = ground (arith, holds_below_sound test bound k)

pow10_table_checked : holds_below (λ k. pow10 k == 10 ^ k) 19 ≡ true
unfolding holds_below pow10
pow10_table_checked = refl

-- The table holds the powers of ten.
pub pow10_lem : (k : ℕ) → k ≤ 18 → pow10 k ≡ 10 ^ k
pow10_lem k h =
    (nat_beq_iff (pow10 k) (10 ^ k)).0
      (holds_below_sound (λ k. pow10 k == 10 ^ k) 19 k (omega arith) pow10_table_checked)

pad_test : (p n : ℕ) → 0 < p → ltb (max_i64 / p) n ≡ ltb max_i64 (n * p)
pad_test p n h = grind arith

pad_value : (p n : ℕ) → n * p ≤ max_i64 → wrap64 (pos n *ℤ pos p) ≡ pos (n * p)
unfolding wrap64 ◌*ℤ◌
pad_value p n h = ground arith

no_parts : (m n : ℕ) → ltb_ℤ (pos m) (pos n) ≡ ltb m n
no_parts m n = ground arith

pub not_over : (m : ℕ) → ltb max_i64 m ≡ false → m ≤ max_i64
not_over m h = ground arith

pub within : (m : ℕ) → m ≤ max_i64 → in_range m ≡ ok (pos m)
within m h = ground arith

pad_case :
    (p n : ℕ)
    → 0 < p
    → (if ltb_ℤ (pos (max_i64 / p)) (pos n) then err overflow else ok (wrap64 (pos n *ℤ pos p)))
      ≡ in_range (n * p)
pad_case p n h = elim (Bool-cases (ltb max_i64 (n * p))) [
  | inl over ↦
      let t : ltb_ℤ (pos (max_i64 / p)) (pos n) ≡ true =
        no_parts (max_i64 / p) n ∙ pad_test p n h ∙ over in
      rw t (sym (out_of_range (n * p) (ltb→lt _ _ over)))
  | inr fits ↦
      let t : ltb_ℤ (pos (max_i64 / p)) (pos n) ≡ false =
        no_parts (max_i64 / p) n ∙ pad_test p n h ∙ fits in
      let small : n * p ≤ max_i64 = not_over (n * p) fits in
      rw (t, pad_value p n small) (sym (within (n * p) small))
]

-- Padding multiplies by the power of ten, or stops at an overflow.
pub pad_zeros_lem : (k n : ℕ) → k ≤ 18 → n ≤ max_i64 → pad_zeros k (pos n) ≡ in_range (n * 10 ^ k)
unfolding pad_zeros
pad_zeros_lem zero n h fits = ground arith
pad_zeros_lem (suc k) n h fits =
    rw (pow10_lem (suc k) h) (pad_case (10 ^ suc k) n (pow_pos (suc k)))
