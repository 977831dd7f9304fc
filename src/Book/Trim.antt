-- ===== src/Book/Trim.antt =====
-- `Trim` of internal/book/book.go beside `Depth`.
use tickstore.Prelude.{
  All, All-drop, Bool, Bool-cases, IsMap, List, Option, [], ap, arith, bytes_eq, delete,
  delete-IsMap, drop, false, inl, inr, int_beq_iff, int_eq, leb, leb→le, length, lookup,
  lookup-delete, nat_eq, none, place, pos, refl, some, sort_slice, subst, suc, sym, take,
  take-append-drop, take_all, true, zero, ℕ, ℤ, ◌++◌, ◌==◌, ◌∙◌, ◌∷◌, ◌≡◌, ◌≢◌,
}
use tickstore.Norm.{Level}
use tickstore.Book.{Book, Levels, delete_all, price_less, prices, trim, trim_side}
use tickstore.Book.Views.{depth, level_less, levels_of, sorted_levels}
use tickstore.Book.Invariant.{IsBook}
use tickstore.Book.Ranking.{
  IsRanked, IsRanked-take, find_level, find_level-append, find_level_behind, ranked_unique,
}
use tickstore.Book.Depth.{find_level-sorted_levels, level_of, sorted_levels-IsRanked}

abbrev prices_of : List Level → List ℤ
prices_of [] = []
prices_of (l ∷ ls) = l.price ∷ prices_of ls

prices_of-levels_of : (m : Levels) → prices_of (levels_of m) ≡ prices m
unfolding levels_of prices
prices_of-levels_of [] = refl
prices_of-levels_of ((p, s) ∷ m) = ap (◌∷◌ p) (prices_of-levels_of m)

prices_of-place :
    (d : Bool) (l : Level) (ls : List Level)
    → prices_of (place (level_less d) l ls) ≡ place (price_less d) l.price (prices_of ls)
unfolding place
prices_of-place d l [] = refl
prices_of-place d l (k ∷ ks) = elim (Bool-cases (price_less d k.price l.price)) [
  | inl e ↦ rw e (ap (◌∷◌ k.price) (prices_of-place d l ks))
  | inr e ↦ rw e
]

prices_of-sort :
    (d : Bool) (ls : List Level)
    → prices_of (sort_slice (level_less d) ls) ≡ sort_slice (price_less d) (prices_of ls)
unfolding sort_slice
prices_of-sort d [] = refl
prices_of-sort d (l ∷ ls) =
    prices_of-place d l (sort_slice (level_less d) ls)
    ∙ ap (place (price_less d) l.price) (prices_of-sort d ls)

prices_of-sorted_levels :
    (d : Bool) (m : Levels) → prices_of (sorted_levels m d) ≡ sort_slice (price_less d) (prices m)
unfolding sorted_levels
prices_of-sorted_levels d m =
    prices_of-sort d (levels_of m) ∙ ap (sort_slice (price_less d)) (prices_of-levels_of m)

prices_of-drop : (n : ℕ) (ls : List Level) → prices_of (drop n ls) ≡ drop n (prices_of ls)
prices_of-drop zero ls = refl
prices_of-drop (suc n) [] = refl
prices_of-drop (suc n) (l ∷ ls) = prices_of-drop n ls

-- Deleting the prices of some levels hides exactly those prices.
lookup-delete_all :
    (p : ℤ) (ls : List Level) (m : Levels)
    → lookup p (delete_all (prices_of ls) m)
      ≡ elim (find_level p ls) [ some s ↦ none | none ↦ lookup p m ]
unfolding delete_all
lookup-delete_all p [] m = refl
lookup-delete_all p (l ∷ ls) m = elim (Bool-cases (l.price == p)) [
  | inl e ↦ rw e (lookup-delete_all p ls (delete l.price m) ∙ hidden (find_level p ls) e)
  | inr e ↦ rw e (lookup-delete_all p ls (delete l.price m) ∙ shown (find_level p ls) e)
]
  where
    hidden :
        (o : Option ℤ)
        → (l.price == p) ≡ true
        → elim o as (λ x. Option ℤ) [ some s ↦ none | none ↦ lookup p (delete l.price m) ] ≡ none
    hidden none e = lookup-delete l.price p m ∙ rw e
    hidden (some s) e = refl

    shown :
        (o : Option ℤ)
        → (l.price == p) ≡ false
        → elim o as (λ x. Option ℤ) [ some s ↦ none | none ↦ lookup p (delete l.price m) ]
          ≡ elim o as (λ x. Option ℤ) [ some s ↦ none | none ↦ lookup p m ]
    shown none e = lookup-delete l.price p m ∙ rw e
    shown (some s) e = refl

-- No price stands on both sides of a cut through a ranked list.
cut_disjoint :
    (d : Bool) (n : ℕ) (p : ℤ) (ls : List Level)
    → IsRanked d ls
    → find_level p (drop n ls) ≢ none
    → find_level p (take n ls) ≡ none
cut_disjoint d zero p ls h f = refl
cut_disjoint d (suc n) p [] h f = refl
cut_disjoint d (suc n) p (l ∷ ls) h f = elim (Bool-cases (l.price == p)) [
  | inr e ↦ rw e (cut_disjoint d n p ls h.1 f)
  | inl e ↦ absurd (
      f (
        find_level_behind d p (drop n ls) (
          subst (λ q. All (λ k. price_less d q k.price ≡ true) (drop n ls))
            ((int_beq_iff l.price p).0 e)
            (All-drop (λ k. price_less d l.price k.price ≡ true) n ls h.0))))
]

delete_all-IsMap : (ps : List ℤ) (m : Levels) → IsMap m → IsMap (delete_all ps m)
unfolding delete_all
delete_all-IsMap [] m h = h
delete_all-IsMap (p ∷ ps) m h = delete_all-IsMap ps (delete p m) (delete-IsMap p m h)

module _ (d : Bool) (m : Levels) (n : ℕ) (h : IsMap m) where
  abbrev worst : List Level
  worst = drop n (sorted_levels m d)

  abbrev best : List Level
  best = take n (sorted_levels m d)

  find_level-best : (p : ℤ) → find_level p best ≡ lookup p (delete_all (prices_of worst) m)
  find_level-best p = go (find_level p worst) refl
    where
      whole : find_level p (best ++ worst) ≡ lookup p m
      whole =
          ap (find_level p) (take-append-drop n (sorted_levels m d))
          ∙ find_level-sorted_levels d p m h

      go :
          (o : Option ℤ)
          → find_level p worst ≡ o
          → find_level p best ≡ lookup p (delete_all (prices_of worst) m)
      go none e =
          let split : find_level p (best ++ worst) ≡ find_level p best =
            find_level-append p best worst ∙ keep (find_level p best) e in
          sym split ∙ whole ∙ sym (lookup-delete_all p worst m ∙ rw e)
        where
          keep :
              (o : Option ℤ)
              → find_level p worst ≡ none
              → elim o as (λ x. Option ℤ) [ some s ↦ some s | none ↦ find_level p worst ] ≡ o
          keep none q = q
          keep (some s) q = refl
      go (some s) e =
          cut_disjoint d n p (sorted_levels m d) (sorted_levels-IsRanked d m h) (λ z. cc (e, z))
          ∙ sym (lookup-delete_all p worst m ∙ rw e)

  sorted_levels-delete_all : sorted_levels (delete_all (prices_of worst) m) d ≡ best
  sorted_levels-delete_all =
      let g : IsMap (delete_all (prices_of worst) m) = delete_all-IsMap (prices_of worst) m h in
      ranked_unique d (sorted_levels (delete_all (prices_of worst) m) d) best
        (sorted_levels-IsRanked d (delete_all (prices_of worst) m) g)
        (IsRanked-take d n (sorted_levels m d) (sorted_levels-IsRanked d m h))
        λ p.
          find_level-sorted_levels d p (delete_all (prices_of worst) m) g ∙ sym (find_level-best p)

length-place :
    (d : Bool) (l : Level) (ls : List Level) → length (place (level_less d) l ls) ≡ suc (length ls)
unfolding place
length-place d l [] = refl
length-place d l (k ∷ ks) = elim (Bool-cases (price_less d k.price l.price)) [
  | inl e ↦ rw e (ap suc (length-place d l ks))
  | inr e ↦ rw e
]

pub length-sorted_levels : (d : Bool) (m : Levels) → length (sorted_levels m d) ≡ length m
unfolding sorted_levels levels_of sort_slice
length-sorted_levels d [] = refl
length-sorted_levels d ((p, s) ∷ m) =
    length-place d (level_of p s) (sorted_levels m d) ∙ ap suc (length-sorted_levels d m)

-- Of a trimmed side a reader sees the first `n` levels of what was there before.
pub sorted_levels-trim_side :
    (d : Bool) (m : Levels) (n : ℕ)
    → IsMap m
    → sorted_levels (trim_side m n d) d ≡ take n (sorted_levels m d)
unfolding trim_side
sorted_levels-trim_side d m n h = elim (Bool-cases (leb (length m) n)) [
  | inl few ↦ rw few (
      sym (
        take_all n (sorted_levels m d)
          (omega (arith, length-sorted_levels d m, leb→le (length m) n few))))
  | inr many ↦
      let e : drop n (sort_slice (price_less d) (prices m))
          ≡ prices_of (drop n (sorted_levels m d)) =
        ap (drop n) (sym (prices_of-sorted_levels d m))
        ∙ sym (prices_of-drop n (sorted_levels m d)) in
      rw (many, e) (sorted_levels-delete_all d m n h)
]

-- After `Trim(n)` the whole depth of the book is what its best `n` levels a side were before.
pub depth-trim :
    (b : Book) (n : ℕ)
    → IsBook b
    → depth (trim b n) (pos 0) ≡ (take n (depth b (pos 0)).0, take n (depth b (pos 0)).1)
unfolding depth trim
depth-trim b n h = rw (
  sorted_levels-trim_side true b.bids n h.bids.keys,
  sorted_levels-trim_side false b.asks n h.asks.keys,
)
