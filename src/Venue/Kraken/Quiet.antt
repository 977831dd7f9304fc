-- ===== src/Venue/Kraken/Quiet.antt =====
-- Lemmas about the errors of the rows of a frame in internal/venue/kraken/book.go.
use tickstore.Prelude.{
  >>=-eq-err, List, Option, Option-cases, Result-cases, [], err, inl, inr, none, pos, refl, some,
  wrap_error, wrap_error-eq-err, ℕ, ◌∷◌, ◌≡◌,
}
use tickstore.Venue.Feed.{Ports}
use tickstore.Norm.Fixed.{parse_fixed}
use tickstore.Norm.{BookSnapshot, BookUpdate, buy, price_decimals, sell, size_decimals}
use tickstore.Venue.Kraken.Books.{
  BookDataWire, BookError, BookLevelWire, SeqBook, apply_both, apply_changes, apply_seed,
  checksum_mismatch, level_price, level_qty, parse_book_levels, parse_level, push,
}

abbrev pub mismatches : BookError → ℕ
mismatches checksum_mismatch = 1
mismatches _ = 0

-- No error, or one that is not a wrong checksum.
abbrev pub IsQuiet : Option BookError → Type 0
IsQuiet none = Unit
IsQuiet (some e) = mismatches e ≡ 0

parse_level-IsQuiet : (w : BookLevelWire) (e : BookError) → parse_level w ≡ err e → mismatches e ≡ 0
unfolding parse_level
parse_level-IsQuiet w e h =
    elim (>>=-eq-err (wrap_error level_price (parse_fixed w.price (pos price_decimals))) _ h) [
      | inl f ↦ let (x, g) = wrap_error-eq-err level_price _ f in rw g refl
      | inr (price, f) ↦
          elim (>>=-eq-err (wrap_error level_qty (parse_fixed w.qty (pos size_decimals))) _ f) [
            | inl k ↦ let (x, g) = wrap_error-eq-err level_qty _ k in rw g refl
            | inr (qty, k) ↦ absurd (cc k)
          ]
    ]

parse_book_levels-IsQuiet :
    (ws : List BookLevelWire) (e : BookError) → parse_book_levels ws ≡ err e → mismatches e ≡ 0
unfolding parse_book_levels
parse_book_levels-IsQuiet [] e h = absurd (cc h)
parse_book_levels-IsQuiet (w ∷ ws) e h = elim (>>=-eq-err (parse_level w) _ h) [
  | inl f ↦ parse_level-IsQuiet w e f
  | inr (l, f) ↦ elim (>>=-eq-err (parse_book_levels ws) _ f) [
    | inl k ↦ parse_book_levels-IsQuiet ws e k
    | inr (ls, k) ↦ absurd (cc k)
  ]
]

module _ (p : Ports) where
  apply_changes-IsQuiet :
      (template : BookUpdate) (ws : List BookLevelWire) (sb : SeqBook)
      → IsQuiet (apply_changes p template ws sb).error
  unfolding apply_changes
  apply_changes-IsQuiet template [] sb = tt
  apply_changes-IsQuiet template (w ∷ ws) sb = elim (Result-cases (parse_level w)) [
    | inl (l, e) ↦
        rw (apply_changes, e)
          (apply_changes-IsQuiet template ws
            (push p sb (record template { price = l.price; size = l.size })).0)
    | inr (x, e) ↦ rw (apply_changes, e) (parse_level-IsQuiet w x e)
  ]

  pub apply_seed-IsQuiet :
      (header : BookSnapshot) (d : BookDataWire) (sb : SeqBook)
      → IsQuiet (apply_seed p header d sb).error
  unfolding apply_seed
  apply_seed-IsQuiet header d sb = elim (Result-cases (parse_book_levels d.bids)) [
    | inl (bids, e) ↦ elim (Result-cases (parse_book_levels d.asks)) [
      | inl (asks, f) ↦ rw (apply_seed, e, f) tt
      | inr (x, f) ↦ rw (apply_seed, e, f) (parse_book_levels-IsQuiet d.asks x f)
    ]
    | inr (x, e) ↦ rw (apply_seed, e) (parse_book_levels-IsQuiet d.bids x e)
  ]

  pub apply_both-IsQuiet :
      (template : BookUpdate) (d : BookDataWire) (sb : SeqBook)
      → IsQuiet (apply_both p template d sb).error
  unfolding apply_both
  apply_both-IsQuiet template d sb =
      let first = apply_changes p (record template { side = buy }) d.bids sb in
      let ih = apply_changes-IsQuiet (record template { side = buy }) d.bids sb in
      elim (Option-cases first.error) [
        | inl e ↦
            rw (apply_both, e)
              (apply_changes-IsQuiet (record template { side = sell }) d.asks first.state)
        | inr (x, e) ↦ rw (apply_both, e) ih
      ]
