-- ===== src/Live/Markets.antt =====
-- The market that `OnBook` of internal/live/registry.go records a book for, and `Depth`.
use tickstore.Prelude.{
  ap, ◌∙◌, Option, List, none, lookup, lookup-insert, refl, Bool, true, Bytes, [], arith, bytes_eq,
  false, if◌then◌else◌, int_eq, nat_eq, pos, some, ◌&&◌, ◌==◌, ◌∷◌, ◌≡◌,
}
use tickstore.Norm.{Time}
use tickstore.Book.{Book}
use tickstore.Book.Views.{depth}
use tickstore.Live.{BookState, Registry, book_state, depth_levels, key, on_book}
use tickstore.Live.Quotes.{DepthRow, Floats, ladder, market_depth}

-- A venue's name, which does not contain the separator of a key.
abbrev pub IsVenueName : Bytes → Type 0
IsVenueName [] = Unit
IsVenueName (c ∷ s) = ((c == b'|') ≡ false) × IsVenueName s

key-beq :
    (v w s t : Bytes)
    → IsVenueName v
    → IsVenueName w
    → (key v s == key w t) ≡ ((v == w) && (s == t))
unfolding key
key-beq [] [] s t hv hw = ground arith
key-beq [] (d ∷ w) s t hv hw = ground arith
key-beq (c ∷ v) [] s t hv hw = ground arith
key-beq (c ∷ v) (d ∷ w) s t hv hw = ground (arith, key-beq v w s t hv.1 hw.1)

module _ (f : Floats) where
  abbrev shown : Option BookState → Option (List (DepthRow f) × List (DepthRow f))
  shown none = none
  shown (some st) = some (ladder f st.bids, ladder f st.asks)

  shown-if :
      (same : Bool) (st : BookState) (other : Option BookState)
      → shown (if same then some st else other)
        ≡ (if same then some (ladder f st.bids, ladder f st.asks) else shown other)
  shown-if true st other = refl
  shown-if false st other = refl

  -- Where no venue's name contains the separator `|`, a recorded book changes the depth of its own
  -- market only: `Depth` of that venue and symbol returns the ladders of the book's best twelve levels
  -- of each side, and `Depth` of every other market returns what it did before.
  pub market_depth-on_book :
      (r : Registry) (b : Book) (now : Time) (venue symbol : Bytes)
      → IsVenueName b.venue
      → IsVenueName venue
      → market_depth f (on_book r b now) venue symbol ≡ (
          if (b.venue == venue) && (b.symbol == symbol)
          then some
              (ladder f (depth b (pos depth_levels)).0, ladder f (depth b (pos depth_levels)).1)
          else market_depth f r venue symbol)
  unfolding market_depth on_book book_state
  market_depth-on_book r b now venue symbol hb hv =
      ap shown (
        lookup-insert (key b.venue b.symbol) (key venue symbol) (book_state b now) r.books
        ∙ ap (λ same. if same then some (book_state b now) else lookup (key venue symbol) r.books)
            (key-beq b.venue venue b.symbol symbol hb hv))
      ∙ shown-if ((b.venue == venue) && (b.symbol == symbol)) (book_state b now)
          (lookup (key venue symbol) r.books)
