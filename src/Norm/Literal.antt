-- ===== src/Norm/Literal.antt =====
-- `ParseFixed` of internal/norm/fixed.go, on decimal literals.
use tickstore.Prelude.{
  Bool-cases, Bytes, ap, arith, err, if◌then◌else◌, inl, inr, leb, leb→le, max_i64, neg_ℤ, ok, pos,
  refl, wrap64_self, ℕ, ℤ, ◌≡◌, ◌≤◌,
}
use tickstore.Norm.Fixed.{overflow, parse_at, parse_fixed}
use tickstore.Norm.Parts.{parse_parts-units, signed, units}
use tickstore.Norm.Spelling.{
  IsLiteral, IsWorth, Literal, Mark, bare, is_minus, minus, parse_at-spelled, plus, spell,
}
use tickstore.Norm.Worth.{Fits-of_worth, units_of_worth}

-- The integer under the literal's sign.
abbrev pub under : Mark → ℕ → ℤ
under minus m = neg_ℤ (pos m)
under _ m = pos m

pub signed-under : (k : Mark) (m : ℕ) → m ≤ max_i64 → signed (is_minus k) (pos m) ≡ under k m
signed-under bare m h = refl
signed-under plus m h = refl
signed-under minus m h = wrap64_self (neg_ℤ (pos m)) (unfold neg_ℤ in ground arith)

pub in_places : (dp : ℕ) → dp ≤ 18 → (s : Bytes) → parse_fixed s (pos dp) ≡ parse_at s dp
unfolding parse_fixed
in_places dp h s = ground arith

-- At 18 decimal places or fewer, a literal that is worth `m` units exactly is read as `m` under its
-- sign, and refused as an overflow where `m` passes 2^63 - 1.
pub parse_fixed_complete :
    (l : Literal) (dp m : ℕ)
    → IsLiteral l
    → dp ≤ 18
    → IsWorth l dp m
    → parse_fixed (spell l) (pos dp) ≡ (if leb m max_i64 then ok (under l.mark m) else err overflow)
parse_fixed_complete l dp m h hdp e =
    let u : units l.whole l.frac dp ≡ m = units_of_worth l dp m h.frac_digits e in
    rw
      (
        in_places dp hdp (spell l),
        parse_at-spelled l dp h,
        parse_parts-units (is_minus l.mark) l.whole l.frac dp hdp h.whole_digits h.frac_digits
            (Fits-of_worth l dp m h.frac_digits e),
        u,
      )
      (elim (Bool-cases (leb m max_i64)) [
        | inl fits ↦ rw fits (ap ok (signed-under l.mark m (leb→le m max_i64 fits)))
        | inr over ↦ rw over
      ])
