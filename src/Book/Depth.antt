-- ===== src/Book/Depth.antt =====
-- Lemmas about `Depth` and `TopOfBook` of internal/book/views.go: sorting the levels of a map.
use tickstore.Prelude.{
  All, Bool, Bool-cases, IsMap, List, [], arith, bytes_eq, false, inl, inr, int_beq_iff, int_eq,
  lookup, nat_eq, none, place, place-All, refl, sort_slice, sort_slice-All, sym, true, ℤ, ◌==◌, ◌∙◌,
  ◌∷◌, ◌≡◌, ◌≢◌,
}
use tickstore.Norm.{Level}
use tickstore.Book.{Levels, price_less}
use tickstore.Book.Views.{level_less, levels_of, sorted_levels}
use tickstore.Book.Order.{price_less_total}
use tickstore.Book.Ranking.{IsRanked, find_level, ranked_unique}

abbrev pub level_of : ℤ → ℤ → Level
level_of p s = record { price = p; size = s }

abbrev Apart : Level → List Level → Type 0
Apart l ls = All (λ k. k.price ≢ l.price) ls

worse_head :
    (d : Bool) (k l : Level)
    → k.price ≢ l.price
    → price_less d k.price l.price ≡ false
    → price_less d l.price k.price ≡ true
worse_head d k l ne h = elim (Bool-cases (price_less d l.price k.price)) [
  | inl e ↦ e
  | inr e ↦ absurd (ne (price_less_total d k.price l.price h e))
]

less_trans :
    (d : Bool) (p q r : ℤ)
    → price_less d p q ≡ true
    → price_less d q r ≡ true
    → price_less d p r ≡ true
less_trans true p q r h k = ground arith
less_trans false p q r h k = ground arith

All-less_trans :
    (d : Bool) (p q : ℤ) (ls : List Level)
    → price_less d p q ≡ true
    → All (λ k. price_less d q k.price ≡ true) ls
    → All (λ k. price_less d p k.price ≡ true) ls
All-less_trans d p q [] h a = tt
All-less_trans d p q (k ∷ ks) h a = (less_trans d p q k.price h a.0, All-less_trans d p q ks h a.1)

place-IsRanked :
    (d : Bool) (l : Level) (ls : List Level)
    → Apart l ls
    → IsRanked d ls
    → IsRanked d (place (level_less d) l ls)
unfolding place
place-IsRanked d l [] apart h = (tt, tt)
place-IsRanked d l (k ∷ ks) apart h = elim (Bool-cases (price_less d k.price l.price)) [
  | inl e ↦ rw e (
    place-All (level_less d) (λ j. price_less d k.price j.price ≡ true) l ks e h.0,
    place-IsRanked d l ks apart.1 h.1,
  )
  | inr e ↦
      let w : price_less d l.price k.price ≡ true = worse_head d k l apart.0 e in
      rw e ((w, All-less_trans d l.price k.price ks w h.0), h)
]

find_level-place :
    (d : Bool) (p : ℤ) (l : Level) (ls : List Level)
    → Apart l ls
    → find_level p (place (level_less d) l ls) ≡ find_level p (l ∷ ls)
unfolding place
find_level-place d p l [] apart = refl
find_level-place d p l (k ∷ ks) apart = elim (Bool-cases (price_less d k.price l.price)) [
  | inr e ↦ rw e
  | inl e ↦ rw e (
      ground (
        arith,
        find_level-place d p l ks apart.1,
        int_beq_iff k.price p,
        int_beq_iff l.price p,
        apart.0,
      ))
]

-- A price that the map lacks is the price of none of its levels.
lookup-Apart : (p s : ℤ) (m : Levels) → lookup p m ≡ none → Apart (level_of p s) (levels_of m)
unfolding lookup levels_of
lookup-Apart p s [] h = tt
lookup-Apart p s ((q, t) ∷ m) h = elim (Bool-cases (q == p)) [
  | inl e ↦ absurd (cc (rw e at h))
  | inr e ↦ (λ z. cc (e, (int_beq_iff q p).1 z), lookup-Apart p s m (rw e at h))
]

module _ (d : Bool) where
  sorted_levels-Apart :
      (p s : ℤ) (m : Levels) → lookup p m ≡ none → Apart (level_of p s) (sorted_levels m d)
  unfolding sorted_levels
  sorted_levels-Apart p s m h =
      sort_slice-All (level_less d) (λ k. k.price ≢ p) (levels_of m) (lookup-Apart p s m h)

  -- The levels of a side stand in strict order of price.
  pub sorted_levels-IsRanked : (m : Levels) → IsMap m → IsRanked d (sorted_levels m d)
  unfolding sorted_levels levels_of sort_slice
  sorted_levels-IsRanked [] h = tt
  sorted_levels-IsRanked ((p, s) ∷ m) h =
      place-IsRanked d (level_of p s) (sorted_levels m d) (sorted_levels-Apart p s m h.0)
        (sorted_levels-IsRanked m h.1)

  -- They give every price the size that the map has for it.
  pub find_level-sorted_levels :
      (p : ℤ) (m : Levels) → IsMap m → find_level p (sorted_levels m d) ≡ lookup p m
  unfolding sorted_levels levels_of sort_slice lookup
  find_level-sorted_levels p [] h = refl
  find_level-sorted_levels p ((q, s) ∷ m) h =
      find_level-place d p (level_of q s) (sorted_levels m d) (sorted_levels-Apart q s m h.0)
      ∙ rw (find_level-sorted_levels p m h.1)

  -- Two maps that hold the same levels are shown alike, in whatever order they are stored.
  pub sorted_levels_unique :
      (m n : Levels)
      → IsMap m
      → IsMap n
      → ((p : ℤ) → lookup p m ≡ lookup p n)
      → sorted_levels m d ≡ sorted_levels n d
  sorted_levels_unique m n hm hn same =
      ranked_unique d (sorted_levels m d) (sorted_levels n d) (sorted_levels-IsRanked m hm)
        (sorted_levels-IsRanked n hn)
        λ p. find_level-sorted_levels p m hm ∙ same p ∙ sym (find_level-sorted_levels p n hn)
