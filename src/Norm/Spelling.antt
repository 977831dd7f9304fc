-- ===== src/Norm/Spelling.antt =====
-- A description of decimal literals and the numbers that they stand for, for
-- internal/norm/fixed.go.
use tickstore.Prelude.{
  All, Bool, Bytes, [], append-nil, arith, false, length, refl, true, ℕ, ◌&&◌, ◌*◌, ◌++◌, ◌^◌, ◌∷◌,
  ◌≡◌,
}
use tickstore.Norm.Decimal.{value}
use tickstore.Norm.Value.{IsDigit}
use tickstore.Norm.Fixed.{cut_dot, cut_sign, is_empty, parse_at, parse_parts}

pub data Mark : Type 0 where
  bare plus minus : Mark

-- A sign, digits, and maybe a dot with more digits.
pub record Literal : Type 0 where
  pub mark : Mark
  pub whole : Bytes
  pub dotted : Bool
  pub frac : Bytes

abbrev pub spell_mark : Mark → Bytes → Bytes
spell_mark bare s = s
spell_mark plus s = b'+' ∷ s
spell_mark minus s = b'-' ∷ s

abbrev pub spell_frac : Bool → Bytes → Bytes
spell_frac true frac = b'.' ∷ frac
spell_frac false frac = []

abbrev pub spell : Literal → Bytes
spell l = spell_mark l.mark (l.whole ++ spell_frac l.dotted l.frac)

pub record IsLiteral (l : Literal) : Type 0 where
  pub whole_digits : All IsDigit l.whole
  pub frac_digits : All IsDigit l.frac
  pub undotted : l.dotted ≡ false → l.frac ≡ []
  pub has_digit : (is_empty l.whole && is_empty l.frac) ≡ false

-- `m` units of 10^-dp are the number that the literal's digits spell, exactly.
abbrev pub IsWorth : Literal → ℕ → ℕ → Type 0
IsWorth l dp m = value 0 (l.whole ++ l.frac) * 10 ^ dp ≡ m * 10 ^ length l.frac

abbrev pub is_minus : Mark → Bool
is_minus minus = true
is_minus _ = false

cut_dot-digits : (s : Bytes) → All IsDigit s → cut_dot s ≡ (s, [])
unfolding cut_dot
cut_dot-digits [] h = refl
cut_dot-digits (c ∷ s) h = rw (cut_dot-digits s h.1) (ground (arith, h.0))

cut_dot-dotted : (s t : Bytes) → All IsDigit s → cut_dot (s ++ b'.' ∷ t) ≡ (s, t)
unfolding cut_dot
cut_dot-dotted [] t h = ground arith
cut_dot-dotted (c ∷ s) t h = rw (cut_dot-dotted s t h.1) (ground (arith, h.0))

cut_dot-spelled :
    (whole frac : Bytes) (dotted : Bool)
    → All IsDigit whole
    → (dotted ≡ false → frac ≡ [])
    → cut_dot (whole ++ spell_frac dotted frac) ≡ (whole, frac)
cut_dot-spelled whole frac true h k = cut_dot-dotted whole frac h
cut_dot-spelled whole frac false h k = rw (append-nil whole, k refl) (cut_dot-digits whole h)

-- The first character of an unsigned literal is a digit or the dot.
cut_sign-bare :
    (whole frac : Bytes) (dotted : Bool)
    → All IsDigit whole
    → cut_sign (whole ++ spell_frac dotted frac) ≡ (false, whole ++ spell_frac dotted frac)
unfolding cut_sign
cut_sign-bare [] frac true h = ground arith
cut_sign-bare [] frac false h = refl
cut_sign-bare (c ∷ s) frac dotted h = ground (arith, h.0)

cut_sign-spelled :
    (m : Mark) (whole frac : Bytes) (dotted : Bool)
    → All IsDigit whole
    → cut_sign (spell_mark m (whole ++ spell_frac dotted frac))
      ≡ (is_minus m, whole ++ spell_frac dotted frac)
cut_sign-spelled bare whole frac dotted h = cut_sign-bare whole frac dotted h
cut_sign-spelled plus whole frac dotted h = unfold cut_sign in ground arith
cut_sign-spelled minus whole frac dotted h = unfold cut_sign in ground arith

pub parse_at-spelled :
    (l : Literal) (dp : ℕ)
    → IsLiteral l
    → parse_at (spell l) dp ≡ parse_parts (is_minus l.mark) l.whole l.frac dp
unfolding parse_at
parse_at-spelled l dp h = rw (
  cut_sign-spelled l.mark l.whole l.frac l.dotted h.whole_digits,
  cut_dot-spelled l.whole l.frac l.dotted h.whole_digits h.undotted,
  h.has_digit,
)
