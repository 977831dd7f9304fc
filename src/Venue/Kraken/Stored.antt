-- ===== src/Venue/Kraken/Stored.antt =====
-- Lemmas about the effects of the rows of a frame in internal/venue/kraken/book.go.
use tickstore.Prelude.{All, All-append, List, Option-cases, Result-cases, [], inl, inr, ◌∷◌}
use tickstore.Book.{incr64}
use tickstore.Venue.Feed.{Ports}
use tickstore.Norm.{BookSnapshot, BookUpdate, buy, sell}
use tickstore.Venue.Published.{IsStored, emit_snapshot-IsStored, store-IsStored}
use tickstore.Venue.Kraken.Books.{
  BookDataWire, BookLevelWire, SeqBook, apply_both, apply_changes, apply_seed, parse_book_levels,
  parse_level, push,
}

module _ (p : Ports) where
  apply_changes-IsStored :
      (template : BookUpdate) (ws : List BookLevelWire) (sb : SeqBook)
      → All IsStored (apply_changes p template ws sb).effects
  unfolding apply_changes push
  apply_changes-IsStored template [] sb = tt
  apply_changes-IsStored template (w ∷ ws) sb = elim (Result-cases (parse_level w)) [
    | inl (l, e) ↦
        let v = record template { price = l.price; size = l.size } in
        rw (apply_changes, e)
          (All-append IsStored (push p sb v).1 (apply_changes p template ws (push p sb v).0).effects
            (unfold push in store-IsStored p (record v { seq = incr64 sb.seq }))
            (apply_changes-IsStored template ws (push p sb v).0))
    | inr (x, e) ↦ rw (apply_changes, e) tt
  ]

  pub apply_seed-IsStored :
      (header : BookSnapshot) (d : BookDataWire) (sb : SeqBook)
      → All IsStored (apply_seed p header d sb).effects
  unfolding apply_seed
  apply_seed-IsStored header d sb = elim (Result-cases (parse_book_levels d.bids)) [
    | inl (bids, e) ↦ elim (Result-cases (parse_book_levels d.asks)) [
      | inl (asks, f) ↦
          rw (apply_seed, e, f)
            (emit_snapshot-IsStored p
              (record header { bids = bids; asks = asks; seq = incr64 sb.seq }))
      | inr (x, f) ↦ rw (apply_seed, e, f) tt
    ]
    | inr (x, e) ↦ rw (apply_seed, e) tt
  ]

  pub apply_both-IsStored :
      (template : BookUpdate) (d : BookDataWire) (sb : SeqBook)
      → All IsStored (apply_both p template d sb).effects
  unfolding apply_both
  apply_both-IsStored template d sb =
      let first = apply_changes p (record template { side = buy }) d.bids sb in
      let second = apply_changes p (record template { side = sell }) d.asks first.state in
      elim (Option-cases first.error) [
        | inl e ↦
            rw (apply_both, e)
              (All-append IsStored first.effects second.effects
                (apply_changes-IsStored (record template { side = buy }) d.bids sb)
                (apply_changes-IsStored (record template { side = sell }) d.asks first.state))
        | inr (x, e) ↦
            rw (apply_both, e) (apply_changes-IsStored (record template { side = buy }) d.bids sb)
      ]
