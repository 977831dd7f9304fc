-- ===== src/Venue/Trades.antt =====
-- Predicates on a trade that a connector of internal/venue passes on.
use tickstore.Prelude.{
  Bytes, List, [], ap, arith, bytes_beq_iff, bytes_eq, int_eq, ltb_ℤ, nat_eq, not, ok, pos, subst,
  sym, true, ℕ, ℤ, ◌==◌, ◌∙◌, ◌∷◌, ◌≡◌, ◌≢◌, ◌≤ℤ◌,
}
use tickstore.Norm.{Time, Trade}
use mathlib.Core.Bool.{true≢false}
use tickstore.Norm.Fixed.{parse_fixed}
use tickstore.Norm.Sound.{Read, parse_fixed_sound}

-- The trade `t` of the venue, received at `now`, as the texts of a wire message give it: its price and
-- its size are positive and exactly what their texts say, in units of 10^-8.
pub record IsTrade (venue symbol price size : Bytes) (now : Time) (t : Trade) : Type 0 where
  pub venue_named : t.venue ≡ venue
  pub symbol_named : t.symbol ≡ symbol
  pub symbol_set : symbol ≢ []
  pub price_read : Read price 8 t.price
  pub price_positive : pos 1 ≤ℤ t.price
  pub size_read : Read size 8 t.size
  pub size_positive : pos 1 ≤ℤ t.size
  pub received : t.ts_received ≡ now

-- Two lists of one length, whose elements are related one by one.
abbrev pub AllPairs {ℓ} : {A B : Type ℓ} → (A → B → Type 0) → List A → List B → Type 0
AllPairs R [] [] = Unit
AllPairs R [] (b ∷ bs) = ⊥
AllPairs R (a ∷ rest) [] = ⊥
AllPairs R (a ∷ rest) (b ∷ bs) = R a b × AllPairs R rest bs

pub positive : (v : ℤ) → ltb_ℤ (pos 0) v ≡ true → pos 1 ≤ℤ v
positive v h = ground (arith, h)

pub set_of_not : (s : Bytes) → not (s == []) ≡ true → s ≢ []
set_of_not s h e = absurd (true≢false (sym h ∙ ap not ((bytes_beq_iff s []).1 e)))

-- The text of a price or a size.
pub Read-at_8 : (s : Bytes) (v : ℤ) → parse_fixed s (pos 8) ≡ ok v → Read s 8 v
Read-at_8 s v h =
    let (n, e, small, read) = parse_fixed_sound s (pos 8) v h in
    subst (λ k. Read s k v) (sym (pos_inj e)) read
  where
    pos_inj : {m n : ℕ} → pos m ≡ pos n → m ≡ n
    pos_inj e = cc
