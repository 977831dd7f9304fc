-- ===== src/Book/Order.antt =====
-- Lemmas about `price_less`, the order of the levels in internal/book/views.go.
use tickstore.Prelude.{Bool, arith, eq_of_parts, false, true, ℤ, ◌≡◌}
use tickstore.Book.{price_less}

pub price_less_asym : (d : Bool) (p q : ℤ) → price_less d p q ≡ true → price_less d q p ≡ false
price_less_asym true p q h = ground arith
price_less_asym false p q h = ground arith

pub price_less_trans :
    (d : Bool) (p q r : ℤ)
    → price_less d q p ≡ false
    → price_less d r q ≡ false
    → price_less d r p ≡ false
price_less_trans true p q r h k = ground arith
price_less_trans false p q r h k = ground arith

pub price_less_total :
    (d : Bool) (p q : ℤ) → price_less d p q ≡ false → price_less d q p ≡ false → p ≡ q
price_less_total true p q h k = eq_of_parts p q (ground arith)
price_less_total false p q h k = eq_of_parts p q (ground arith)

pub price_less_irrefl : (d : Bool) (p : ℤ) → price_less d p p ≡ false
price_less_irrefl true p = ground arith
price_less_irrefl false p = ground arith
