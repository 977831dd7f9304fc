-- ===== src/Live/Ladders.antt =====
-- The rows of a ladder in internal/live/registry.go.
use tickstore.Prelude.{
  List, Option, [], ap, get_elem?, none, pos, refl, some, sym, take, suc, zero, wrap64, wrap64-add,
  add_ℤ_zero, zero_add_ℤ, add_ℤ_assoc, ℕ, ℤ, ◌+ℤ◌, ◌∙◌, ◌∷◌, ◌≡◌,
}
use tickstore.Norm.{Level}
use tickstore.Live.Quotes.{DepthRow, Floats, ladder, ladder_from}

-- The sum of the levels' sizes, in ℤ.
unfoldable pub total_size : List Level → ℤ
total_size [] = pos 0
total_size (l ∷ ls) = l.size +ℤ total_size ls

module _ (f : Floats) where
  open f use {of_fixed}

  -- The row of a level, where the levels from the best one to it hold `total` in sum.
  abbrev pub row : ℤ → Level → DepthRow f
  row total l = record {
    price = of_fixed l.price;
    size = of_fixed l.size;
    cum = of_fixed (wrap64 total);
  }

  abbrev pub row_at : ℤ → Option Level → Option (DepthRow f)
  row_at total none = none
  row_at total (some l) = some (row total l)

  row_at-wrap64 : (a b : ℤ) (o : Option Level) → wrap64 a ≡ wrap64 b → row_at a o ≡ row_at b o
  row_at-wrap64 a b none e = refl
  row_at-wrap64 a b (some l) e =
      ap (λ t. some (record { price = of_fixed l.price; size = of_fixed l.size; cum = of_fixed t }))
        e

  ladder_from-rows :
      (c : ℤ) (ls : List Level) (i : ℕ)
      → get_elem? (ladder_from f c ls) i
        ≡ row_at (c +ℤ total_size (take (suc i) ls)) (get_elem? ls i)
  unfolding ladder_from total_size
  ladder_from-rows c [] i = refl
  ladder_from-rows c (l ∷ ls) zero = ap (λ s. some (row (c +ℤ s) l)) (sym (add_ℤ_zero l.size))
  ladder_from-rows c (l ∷ ls) (suc i) =
      let rest = total_size (take (suc i) ls) in
      ladder_from-rows (wrap64 (c +ℤ l.size)) ls i
      ∙ row_at-wrap64 (wrap64 (c +ℤ l.size) +ℤ rest) (c +ℤ (l.size +ℤ rest)) (get_elem? ls i)
          (wrap64-add (c +ℤ l.size) rest ∙ ap wrap64 (add_ℤ_assoc c l.size rest))

  -- The i-th row of a ladder is the i-th level's, and the total it shows is the sum of the sizes of the
  -- levels from the best one to it, folded back to an `int64` once; a ladder has no other rows.
  pub ladder-rows :
      (ls : List Level) (i : ℕ)
      → get_elem? (ladder f ls) i ≡ row_at (total_size (take (suc i) ls)) (get_elem? ls i)
  unfolding ladder
  ladder-rows ls i =
      ladder_from-rows (pos 0) ls i
      ∙ ap (λ s. row_at s (get_elem? ls i)) (zero_add_ℤ (total_size (take (suc i) ls)))
