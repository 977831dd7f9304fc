-- ===== src/Norm/Sound.antt =====
-- The texts that `ParseFixed` of internal/norm/fixed.go accepts.
use tickstore.Prelude.{
  >>=-eq-ok, All, Bool, Bool-cases, Bytes, Result, [], ap, arith, bytes_eq, false, inl, inr, int_eq,
  leb, leb→le, ltb, max_i64, nat_beq_iff, nat_eq, negsuc, ok, pos, refl, sym, true, ℕ, ℤ, ◌&&◌,
  ◌++◌, ◌==◌, ◌>>=◌, ◌∙◌, ◌∷◌, ◌≡◌, ◌≤◌,
}
use tickstore.Norm.Value.{IsDigit}
use tickstore.Norm.Fixed.{
  FixedError, check_digits, cut_dot, cut_sign, fit_fraction, is_empty, parse_at, parse_fixed,
  parse_parts,
}
use tickstore.Norm.ReadDigits.{in_range}
use tickstore.Norm.Parts.{Fits, digits_of_check, Fits-of_fit, parse_parts-units, signed, units}
use tickstore.Norm.Spelling.{
  IsLiteral, IsWorth, Literal, Mark, bare, is_minus, minus, plus, spell, spell_frac, spell_mark,
}
use tickstore.Norm.Worth.{IsWorth-units}
use tickstore.Norm.Literal.{in_places, signed-under, under}

cut_sign_inv :
    (s : Bytes) → (k : Mark) × (s ≡ spell_mark k (cut_sign s).1) × ((cut_sign s).0 ≡ is_minus k)
unfolding cut_sign
cut_sign_inv [] = (bare, refl, refl)
cut_sign_inv (c ∷ s) = elim (Bool-cases (c == b'-')) [
  | inl e ↦ rw e (minus, ap (λ x. x ∷ s) ((nat_beq_iff c b'-').0 e), refl)
  | inr e ↦ rw e (elim (Bool-cases (c == b'+')) [
    | inl f ↦ rw f (plus, ap (λ x. x ∷ s) ((nat_beq_iff c b'+').0 f), refl)
    | inr f ↦ rw f (bare, refl, refl)
  ])
]

cut_dot_inv :
    (s : Bytes)
    → (dotted : Bool) × (s ≡ (cut_dot s).0 ++ spell_frac dotted (cut_dot s).1)
      × (dotted ≡ false → (cut_dot s).1 ≡ [])
unfolding cut_dot
cut_dot_inv [] = (false, refl, λ e. refl)
cut_dot_inv (c ∷ s) = elim (Bool-cases (c == b'.')) [
  | inl e ↦ rw e (true, ap (λ x. x ∷ s) ((nat_beq_iff c b'.').0 e), λ f. absurd (cc))
  | inr e ↦
      let (dotted, whole, undotted) = cut_dot_inv s in rw e (dotted, ap (◌∷◌ c) whole, undotted)
]

parse_parts_inv :
    (neg : Bool) (whole frac : Bytes) (dp : ℕ) (v : ℤ)
    → parse_parts neg whole frac dp ≡ ok v
    → All IsDigit whole × All IsDigit frac × Fits frac dp
unfolding parse_parts
parse_parts_inv neg whole frac dp v h =
    let (a, ha, h1) = >>=-eq-ok (check_digits whole) _ h in
    let (b, hb, h2) = >>=-eq-ok (check_digits frac) _ h1 in
    let (kept, hk, h3) = >>=-eq-ok (fit_fraction frac dp) _ h2 in
    (digits_of_check whole ha, digits_of_check frac hb, Fits-of_fit frac kept dp hk)

in_range_inv :
    (k : Mark) (m : ℕ) (v : ℤ)
    → (in_range m >>= λ x. ok (signed (is_minus k) x)) ≡ ok v
    → (m ≤ max_i64) × (v ≡ under k m)
in_range_inv k m v h = elim (Bool-cases (leb m max_i64)) [
  | inl fits ↦
      let small : m ≤ max_i64 = leb→le m max_i64 fits in
      let e : ◌≡◌ {A = Result FixedError ℤ} (ok (signed (is_minus k) (pos m))) (ok v) =
        rw fits at h in
      (small, cc (e, signed-under k m small))
  | inr over ↦ absurd (cc (rw over at h))
]

-- What an accepted text is, at `dp` places: a literal that spells it, worth `m` units exactly, of
-- which the result is the signed number.
pub record Read (s : Bytes) (dp : ℕ) (v : ℤ) : Type 0 where
  pub literal : Literal
  pub is_literal : IsLiteral literal
  pub spelled : s ≡ spell literal
  pub units_read : ℕ
  pub worth : IsWorth literal dp units_read
  pub small : units_read ≤ max_i64
  pub result : v ≡ under literal.mark units_read

parts-Read :
    (s : Bytes) (k : Mark) (dotted : Bool) (whole frac : Bytes) (dp : ℕ) (v : ℤ)
    → dp ≤ 18
    → s ≡ spell_mark k (whole ++ spell_frac dotted frac)
    → (dotted ≡ false → frac ≡ [])
    → (is_empty whole && is_empty frac) ≡ false
    → parse_parts (is_minus k) whole frac dp ≡ ok v
    → Read s dp v
parts-Read s k dotted whole frac dp v hdp spelled undotted some_digit h =
    let (hw, hf, fits) = parse_parts_inv (is_minus k) whole frac dp v h in
    let l : Literal = record { mark = k; whole = whole; dotted = dotted; frac = frac } in
    let (small, result) =
      in_range_inv k (units whole frac dp) v
        (sym (parse_parts-units (is_minus k) whole frac dp hdp hw hf fits) ∙ h) in
    record {
      literal = l;
      is_literal = record {
        whole_digits = hw;
        frac_digits = hf;
        undotted = undotted;
        has_digit = some_digit;
      };
      spelled = spelled;
      units_read = units whole frac dp;
      worth = IsWorth-units l dp fits;
      small = small;
      result = result;
    }

parse_at_sound : (s : Bytes) (dp : ℕ) (v : ℤ) → dp ≤ 18 → parse_at s dp ≡ ok v → Read s dp v
unfolding parse_at
parse_at_sound s dp v hdp h =
    let (k, spelled, sign) = cut_sign_inv s in
    let u = (cut_sign s).1 in
    let (dotted, split, undotted) = cut_dot_inv u in
    elim (Bool-cases (is_empty (cut_dot u).0 && is_empty (cut_dot u).1)) [
      | inl none_left ↦ absurd (cc (rw none_left at h))
      | inr some_left ↦
          parts-Read s k dotted (cut_dot u).0 (cut_dot u).1 dp v hdp
            (spelled ∙ ap (spell_mark k) split) undotted some_left (rw (some_left, sign) at h)
    ]

-- An accepted text is a literal whose number is a whole count of units of 10^-dp, at most 2^63 - 1,
-- and the result is this count under the literal's sign: nothing was rounded or wrapped around. The
-- number of places lies in [0, 18].
pub parse_fixed_sound :
    (s : Bytes) (dp v : ℤ)
    → parse_fixed s dp ≡ ok v
    → (n : ℕ) × (dp ≡ pos n) × (n ≤ 18) × Read s n v
unfolding parse_fixed
parse_fixed_sound s (negsuc n) v h = absurd (ground arith)
parse_fixed_sound s (pos n) v h = elim (Bool-cases (ltb 18 n)) [
  | inl far ↦ absurd (ground arith)
  | inr near ↦
      let small : n ≤ 18 = ground arith in
      (n, refl, small, parse_at_sound s n v small (sym (in_places n small s) ∙ h))
]
