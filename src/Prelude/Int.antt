-- ===== src/Prelude/Int.antt =====
-- Signed integers over the native numbers, and Go's `int64` as the integers of its range: an
-- operation computes in ℤ and `wrap64` folds the result back, as two's complement does.
use Prim.Native.Nat.{ℕ, suc, ◌+◌, ◌-◌, ◌*◌, ◌/◌, ◌%◌, ◌^◌, ◌≤◌, ◌<◌}
use mathlib.Core.Path.{◌≡◌}
use mathlib.Core.Logic.{◌↔◌, ◌≢◌, ◌⊎◌, inl, inr}
use mathlib.Core.Bool.{Bool, true}
use native.Mathlib.Omega.{arith}
use tickstore.Prelude.Tests.{ltb, leb, nat_beq, if◌then◌else◌, Eq, Bool-cases}

-- `negsuc n` is -(n + 1).
pub data ℤ : Type 0 where
  pos : ℕ → ℤ
  negsuc : ℕ → ℤ

abbrev pub pos_part : ℤ → ℕ
pos_part (pos n) = n
pos_part (negsuc n) = 0

abbrev pub neg_part : ℤ → ℕ
neg_part (pos n) = 0
neg_part (negsuc n) = suc n

-- a - b, as an integer.
abbrev pub sub_ℕ : ℕ → ℕ → ℤ
sub_ℕ a b = if leb b a then pos (a - b) else negsuc (b - a - 1)

infixl 65 ◌+ℤ◌
infixl 70 ◌*ℤ◌
infix 50 ◌≤ℤ◌
unfoldable pub ◌+ℤ◌ : ℤ → ℤ → ℤ
a +ℤ b = sub_ℕ (pos_part a + pos_part b) (neg_part a + neg_part b)

unfoldable pub ◌*ℤ◌ : ℤ → ℤ → ℤ
a *ℤ b =
    sub_ℕ (pos_part a * pos_part b + neg_part a * neg_part b)
      (pos_part a * neg_part b + neg_part a * pos_part b)

unfoldable pub neg_ℤ : ℤ → ℤ
neg_ℤ a = sub_ℕ (neg_part a) (pos_part a)

-- Go's division by a positive constant rounds towards zero.
unfoldable pub quot_ℤ : ℤ → ℕ → ℤ
quot_ℤ a k = sub_ℕ (pos_part a / k) (neg_part a / k)

abbrev pub ◌≤ℤ◌ : ℤ → ℤ → Type 0
a ≤ℤ b = pos_part a + neg_part b ≤ pos_part b + neg_part a

abbrev pub ltb_ℤ : ℤ → ℤ → Bool
ltb_ℤ a b = ltb (pos_part a + neg_part b) (pos_part b + neg_part a)

abbrev pub leb_ℤ : ℤ → ℤ → Bool
leb_ℤ a b = leb (pos_part a + neg_part b) (pos_part b + neg_part a)

abbrev pub int_beq : ℤ → ℤ → Bool
int_beq a b = nat_beq (pos_part a + neg_part b) (pos_part b + neg_part a)

pub int_beq_iff : (a b : ℤ) → (int_beq a b ≡ true) ↔ (a ≡ b)
int_beq_iff a b = ground arith

instance abbrev pub int_eq : Eq ℤ
int_eq = record { beq = int_beq; beq_iff = int_beq_iff }

pub eq_of_parts : (a b : ℤ) → pos_part a + neg_part b ≡ pos_part b + neg_part a → a ≡ b
eq_of_parts a b h = ground arith

-- 2^63 - 1 and 2^64
abbrev pub max_i64 : ℕ
max_i64 = 2 ^ 63 - 1

abbrev pub u64_mod : ℕ
u64_mod = 2 ^ 64

-- The bits of an integer as a `uint64`, the conversion `uint64(v)`.
unfoldable pub to_u64 : ℤ → ℕ
to_u64 (pos n) = n % u64_mod
to_u64 (negsuc n) = u64_mod - 1 - n % u64_mod

-- The `int64` with these bits.
unfoldable pub of_u64 : ℕ → ℤ
of_u64 m = if leb m max_i64 then pos m else negsuc (u64_mod - 1 - m)

unfoldable pub wrap64 : ℤ → ℤ
unfolding to_u64 of_u64
wrap64 a = of_u64 (to_u64 a)

-- Values that an `int64` holds.
abbrev pub IsI64 : ℤ → Type 0
IsI64 a = (pos_part a ≤ max_i64) × (neg_part a ≤ 2 ^ 63)

pub wrap64_self : (a : ℤ) → IsI64 a → wrap64 a ≡ a
unfolding wrap64
wrap64_self (pos n) h = ground arith
wrap64_self (negsuc n) h = ground arith

pub wrap64-IsI64 : (a : ℤ) → IsI64 (wrap64 a)
unfolding wrap64
wrap64-IsI64 (pos n) = ground arith
wrap64-IsI64 (negsuc n) = ground arith

-- What `omega` needs of the operations, which stay shut.
pub +ℤ_parts :
    (a b : ℤ)
    → pos_part (a +ℤ b) + neg_part a + neg_part b ≡ neg_part (a +ℤ b) + pos_part a + pos_part b
unfolding ◌+ℤ◌
+ℤ_parts a b = ground arith

pub neg_ℤ_parts : (a : ℤ) → (pos_part (neg_ℤ a) ≡ neg_part a) × (neg_part (neg_ℤ a) ≡ pos_part a)
unfolding neg_ℤ
neg_ℤ_parts (pos n) = ground arith
neg_ℤ_parts (negsuc n) = ground arith

pub pos_part-le : (a : ℤ) (n : ℕ) → a ≤ℤ pos n → pos_part a ≤ n
pos_part-le (pos m) n h = omega arith
pos_part-le (negsuc m) n h = omega arith

pub ltb_ℤ→lt : (a b : ℤ) → ltb_ℤ a b ≡ true → pos_part a + neg_part b < pos_part b + neg_part a
ltb_ℤ→lt a b h = ground arith

pub lt→ltb_ℤ : (a b : ℤ) → pos_part a + neg_part b < pos_part b + neg_part a → ltb_ℤ a b ≡ true
lt→ltb_ℤ a b h = ground arith

pub add_ℤ_assoc : (a b c : ℤ) → (a +ℤ b) +ℤ c ≡ a +ℤ (b +ℤ c)
unfolding ◌+ℤ◌
add_ℤ_assoc a b c = ground arith

pub add_ℤ_zero : (a : ℤ) → a +ℤ pos 0 ≡ a
unfolding ◌+ℤ◌
add_ℤ_zero a = ground arith

pub zero_add_ℤ : (a : ℤ) → pos 0 +ℤ a ≡ a
unfolding ◌+ℤ◌
zero_add_ℤ a = ground arith

-- A sum may be folded back at any of its steps.
pub wrap64-add : (a b : ℤ) → wrap64 (wrap64 a +ℤ b) ≡ wrap64 (a +ℤ b)
unfolding wrap64 ◌+ℤ◌
wrap64-add (pos a) (pos b) = ground arith
wrap64-add (pos a) (negsuc b) = ground arith
wrap64-add (negsuc a) (pos b) = ground arith
wrap64-add (negsuc a) (negsuc b) = ground arith

pub ℤ-cases : (a b : ℤ) → (a ≡ b) ⊎ (a ≢ b)
ℤ-cases a b = elim (Bool-cases (int_beq a b)) [
  | inl e ↦ inl ((int_beq_iff a b).0 e)
  | inr e ↦ inr (λ z. cc (e, (int_beq_iff a b).1 z))
]
