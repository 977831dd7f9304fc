-- ===== src/Book/Top.antt =====
-- `TopOfBook` beside `Depth`, in internal/book/views.go.
use tickstore.Prelude.{
  Bool, Bool-cases, IsMap, List, Option, [], ap, arith, bytes_eq, false, if◌then◌else◌, inl, inr,
  int_beq_iff, int_eq, lookup, ltb_ℤ, nat_eq, none, not, pos, refl, some, sort_slice, subst, sym,
  true, ℤ, ℤ-cases, ◌&&◌, ◌==◌, ◌||◌, ◌∙◌, ◌∷◌, ◌≡◌, ◌≢◌, ◌⊎◌,
}
use tickstore.Norm.{Level}
use tickstore.Book.{Book, Levels, price_less}
use tickstore.Book.Views.{
  both, depth, extreme, extreme_from, levels_of, size_of, sorted_levels, top_of_book,
}
use tickstore.Book.Order.{price_less_asym, price_less_irrefl, price_less_total, price_less_trans}
use tickstore.Book.Invariant.{IsBook}
use tickstore.Book.Ranking.{IsRanked, find_level, found_at_or_behind}
use tickstore.Book.Depth.{find_level-sorted_levels, sorted_levels-IsRanked}

-- The scan's test, for a side's direction.
better_iff : (d : Bool) (p q : ℤ) → ((d && ltb_ℤ q p) || (not d && ltb_ℤ p q)) ≡ price_less d p q
better_iff true p q = ground arith
better_iff false p q = refl

-- What the scan leaves behind: a price of the map or the one it began with, that none beats.
record Best (d : Bool) (m : Levels) (start : ℤ) (best : ℤ) : Type 0 where
  from_side : best ≢ start → lookup best m ≢ none
  beats_start : price_less d start best ≡ false
  beats_side : (p : ℤ) → lookup p m ≢ none → price_less d p best ≡ false

scan : Bool → Levels → ℤ → ℤ
scan d [] best = best
scan d ((p, s) ∷ m) best = scan d m (if price_less d p best then p else best)

extreme_from-scan :
    (d : Bool) (m : Levels) (best : ℤ) → extreme_from d m false best ≡ (false, scan d m best)
unfolding extreme_from scan
extreme_from-scan d [] best = refl
extreme_from-scan d ((p, s) ∷ m) best = elim (Bool-cases (price_less d p best)) [
  | inl e ↦ rw (better_iff d p best, e) (extreme_from-scan d m p)
  | inr e ↦ rw (better_iff d p best, e) (extreme_from-scan d m best)
]

lookup-cons_ne : (p q s : ℤ) (m : Levels) → lookup p m ≢ none → lookup p ((q, s) ∷ m) ≢ none
unfolding lookup
lookup-cons_ne p q s m h = ground arith

lookup-cons_self : (p s : ℤ) (m : Levels) → lookup p ((p, s) ∷ m) ≢ none
unfolding lookup
lookup-cons_self p s m = ground (arith, int_beq_iff p p)

lookup-cons_inv :
    (p q s : ℤ) (m : Levels) → lookup p ((q, s) ∷ m) ≢ none → (q ≡ p) ⊎ (lookup p m ≢ none)
unfolding lookup
lookup-cons_inv p q s m h = elim (Bool-cases (q == p)) [
  | inl e ↦ inl ((int_beq_iff q p).0 e)
  | inr e ↦ inr (λ z. h (rw e z))
]

scan-Best : (d : Bool) (m : Levels) (start : ℤ) → Best d m start (scan d m start)
unfolding scan
scan-Best d [] start = record {
  from_side = λ h. absurd (h refl);
  beats_start = price_less_irrefl d start;
  beats_side = λ p h. unfold lookup in absurd (h refl);
}
scan-Best d ((p, s) ∷ m) start = elim (Bool-cases (price_less d p start)) [
  | inl e ↦
      let ih : Best d m p (scan d m p) = scan-Best d m p in
      rw e (record {
        from_side = λ h. elim (ℤ-cases (scan d m p) p) [
          | inl z ↦ rw z (lookup-cons_self p s m)
          | inr z ↦ lookup-cons_ne (scan d m p) p s m (ih.from_side z)
        ];
        beats_start =
            price_less_trans d (scan d m p) p start ih.beats_start (price_less_asym d p start e);
        beats_side = λ q h. elim (lookup-cons_inv q p s m h) [
          | inl z ↦ rw (← z) ih.beats_start
          | inr z ↦ ih.beats_side q z
        ];
      })
  | inr e ↦
      let ih : Best d m start (scan d m start) = scan-Best d m start in
      rw e (record {
        from_side = λ h. lookup-cons_ne (scan d m start) p s m (ih.from_side h);
        beats_start = ih.beats_start;
        beats_side = λ q h. elim (lookup-cons_inv q p s m h) [
          | inl z ↦ rw (← z) (price_less_trans d (scan d m start) start p ih.beats_start e)
          | inr z ↦ ih.beats_side q z
        ];
      })
]

abbrev pub head_of : List Level → Option Level
head_of [] = none
head_of (l ∷ ls) = some l

abbrev size_at : Levels → ℤ → Option Level
size_at m p = some (record { price = p; size = size_of (lookup p m) })

best_is_head :
    (d : Bool) (m : Levels) (best : ℤ)
    → IsMap m
    → lookup best m ≢ none
    → ((p : ℤ) → lookup p m ≢ none → price_less d p best ≡ false)
    → size_at m best ≡ head_of (sorted_levels m d)
best_is_head d m best h at beats = go (sorted_levels m d) refl
  where
    go : (ls : List Level) → sorted_levels m d ≡ ls → size_at m best ≡ head_of ls
    go [] e = absurd (at (sym (find_level-sorted_levels d best m h) ∙ ap (find_level best) e))
    go (l ∷ ls) e =
        let found : (p : ℤ) → lookup p m ≡ find_level p (l ∷ ls) =
          λ p. sym (find_level-sorted_levels d p m h) ∙ ap (find_level p) e in
        let ranked : IsRanked d (l ∷ ls) = subst (IsRanked d) e (sorted_levels-IsRanked d m h) in
        let self : find_level l.price (l ∷ ls) ≡ some l.size =
          ground (arith, int_beq_iff l.price l.price) in
        let p : best ≡ l.price =
          price_less_total d best l.price
            (found_at_or_behind d best l ls ranked (λ z. at (found best ∙ z)))
            (beats l.price (λ z. cc (z, self, found l.price))) in
        let q : lookup best m ≡ some l.size =
          subst (λ x. lookup x m ≡ some l.size) (sym p) (found l.price ∙ self) in
        cc (p, q)

-- The scan returns the head of the sorted side, and nothing of an empty one.
pub extreme-sorted_levels :
    (d : Bool) (m : Levels) → IsMap m → extreme m d ≡ head_of (sorted_levels m d)
unfolding extreme extreme_from
extreme-sorted_levels d [] h = unfold sorted_levels levels_of sort_slice in refl
extreme-sorted_levels d ((p, s) ∷ m) h =
    let b : Best d m p (scan d m p) = scan-Best d m p in
    let at : lookup (scan d m p) ((p, s) ∷ m) ≢ none = elim (ℤ-cases (scan d m p) p) [
      | inl z ↦ subst (λ x. lookup x ((p, s) ∷ m) ≢ none) (sym z) (lookup-cons_self p s m)
      | inr z ↦ lookup-cons_ne (scan d m p) p s m (b.from_side z)
    ] in
    rw (extreme_from-scan d m p) (
      best_is_head d ((p, s) ∷ m) (scan d m p) h at λ q f. elim (lookup-cons_inv q p s m f) [
        | inl z ↦ subst (λ x. price_less d x (scan d m p) ≡ false) z b.beats_start
        | inr z ↦ b.beats_side q z
      ])

-- `TopOfBook` is the best bid and the best ask of `Depth`, and nothing where a side is empty.
pub top_of_book-depth :
    (b : Book)
    → IsBook b
    → top_of_book b ≡ both (head_of (depth b (pos 0)).0) (head_of (depth b (pos 0)).1)
unfolding top_of_book depth
top_of_book-depth b h =
    rw (
      extreme-sorted_levels true b.bids h.bids.keys,
      extreme-sorted_levels false b.asks h.asks.keys,
    )
