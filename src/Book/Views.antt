-- ===== src/Book/Views.antt =====
-- internal/book/views.go: what a reader sees of a book.
use tickstore.Prelude.{
  Bool, List, Option, [], bytes_eq, false, if◌then◌else◌, int_eq, length, lookup, ltb, ltb_ℤ,
  nat_eq, none, not, pos, pos_part, some, sort_slice, take, true, ℕ, ℤ, ◌&&◌, ◌||◌, ◌∷◌,
}
use tickstore.Norm.{Level}
use tickstore.Book.{Book, Levels, price_less}

-- The loop of `extreme`: `first` and `best` after the rest of the map.
unfoldable pub extreme_from : Bool → Levels → Bool → ℤ → Bool × ℤ
extreme_from desc [] first best = (first, best)
extreme_from desc ((p, s) ∷ m) first best =
    let better = first || ((desc && ltb_ℤ best p) || (not desc && ltb_ℤ p best)) in
    extreme_from desc m (if better then false else first) (if better then p else best)

abbrev pub size_of : Option ℤ → ℤ
size_of none = pos 0
size_of (some s) = s

unfoldable pub extreme : Levels → Bool → Option Level
unfolding extreme_from
extreme side desc =
    let (first, best) = extreme_from desc side true (pos 0) in
    if first then none else some (record { price = best; size = size_of (lookup best side) })

abbrev pub both : Option Level → Option Level → Option (Level × Level)
both (some bid) (some ask) = some (bid, ask)
both _ _ = none

unfoldable pub top_of_book : Book → Option (Level × Level)
unfolding extreme
top_of_book b = both (extreme b.bids true) (extreme b.asks false)

unfoldable pub levels_of : Levels → List Level
levels_of [] = []
levels_of ((p, s) ∷ m) = record { price = p; size = s } ∷ levels_of m

abbrev pub level_less : Bool → Level → Level → Bool
level_less desc k l = price_less desc k.price l.price

unfoldable pub sorted_levels : Levels → Bool → List Level
unfolding levels_of
sorted_levels side desc = sort_slice (level_less desc) (levels_of side)

-- `levels[:n]`, where there are more than `n`.
unfoldable pub best_levels : ℕ → List Level → List Level
best_levels n levels = if ltb n (length levels) then take n levels else levels

-- Bids highest first and asks lowest first; every level if `n` is not positive.
unfoldable pub depth : Book → ℤ → List Level × List Level
unfolding sorted_levels best_levels
depth b n =
    let bids = sorted_levels b.bids true in
    let asks = sorted_levels b.asks false in
    if ltb_ℤ (pos 0) n
    then (best_levels (pos_part n) bids, best_levels (pos_part n) asks)
    else (bids, asks)
