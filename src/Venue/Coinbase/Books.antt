-- ===== src/Venue/Coinbase/Books.antt =====
-- internal/venue/coinbase/book.go and bookparse.go: Coinbase's book feed, numbered by the connector.
use tickstore.Prelude.{
  Assoc, Bool, Bytes, List, Option, Result, [], bytes_eq, codes, err, false, if◌then◌else◌, insert,
  int_eq, lookup, nat_eq, none, ok, or_fail, pos, some, true, wrap_error, ℕ, ◌++◌, ◌+◌, ◌==◌, ◌>>=◌,
  ◌∷◌,
}
use tickstore.Norm.{
  BookSnapshot, BookUpdate, Level, Side, Time, buy, price_decimals, sell, side_unknown,
  size_decimals, zero_time,
}
use tickstore.Norm.Fixed.{FixedError, parse_fixed}
use tickstore.Book.{Book, apply, apply_snapshot, incr64, new}
use tickstore.Venue.Reconnect.{Round, keep_alive}
use tickstore.Venue.Feed.{Effect, Ports, emit_snapshot, observe, store}
use tickstore.Venue.Coinbase.{backoff_high, backoff_low, name}

-- `bids` and `asks` hold pairs of price and size, `changes` triples of side, price and size.
pub record Level2Wire : Type 0 where
  pub kind : Bytes
  pub product_id : Bytes
  pub time : Bytes
  pub bids : List (Bytes × Bytes)
  pub asks : List (Bytes × Bytes)
  pub changes : List (Bytes × Bytes × Bytes)

pub data Level2Error : Type 0 where
  bad_level2_json level2_rejected unexpected_level2_type missing_level2_product : Level2Error
  bad_level2_time bad_level2_side : Level2Error
  level_price level_size : FixedError → Level2Error

pub record Level2Decoder : Type 0 where
  pub message : Bytes → Option Level2Wire
  pub time : Bytes → Option Time

-- What a frame holds: a snapshot, updates, or neither.
pub data Level2Frame : Type 0 where
  seed_frame : BookSnapshot → Level2Frame
  update_frame : List BookUpdate → Level2Frame
  empty_frame : Level2Frame

unfoldable pub parse_levels : List (Bytes × Bytes) → Result Level2Error (List Level)
parse_levels [] = ok []
parse_levels ((p, s) ∷ rest) = do
  price ← wrap_error level_price (parse_fixed p (pos price_decimals))
  size ← wrap_error level_size (parse_fixed s (pos size_decimals))
  levels ← parse_levels rest
  ok (record { price = price; size = size } ∷ levels)

unfoldable pub level2_snapshot : Level2Wire → Time → Result Level2Error BookSnapshot
unfolding parse_levels
level2_snapshot m ts_received = if m.product_id == [] then err missing_level2_product else do
  bids ← parse_levels m.bids
  asks ← parse_levels m.asks
  ok (record {
    venue = name;
    symbol = m.product_id;
    ts_exchange = zero_time;
    ts_received = ts_received;
    bids = bids;
    asks = asks;
    seq = 0;
  })

-- A side names the book's side here: nothing is flipped.
unfoldable pub book_side : Bytes → Result Level2Error Side
book_side s =
    if s == codes "buy" then ok buy else if s == codes "sell" then ok sell else err bad_level2_side

unfoldable pub parse_changes :
    BookUpdate → List (Bytes × Bytes × Bytes) → Result Level2Error (List BookUpdate)
unfolding book_side
parse_changes template [] = ok []
parse_changes template ((c, p, s) ∷ rest) = do
  side ← book_side c
  price ← wrap_error level_price (parse_fixed p (pos price_decimals))
  size ← wrap_error level_size (parse_fixed s (pos size_decimals))
  ups ← parse_changes template rest
  ok (record template { side = side; price = price; size = size } ∷ ups)

module _ (d : Level2Decoder) where
  unfoldable pub level2_updates : Level2Wire → Time → Result Level2Error (List BookUpdate)
  unfolding parse_changes
  level2_updates m ts_received = if m.product_id == [] then err missing_level2_product else do
    ts ← if m.time == [] then ok zero_time else or_fail bad_level2_time (d.time m.time)
    parse_changes
        (record {
          venue = name;
          symbol = m.product_id;
          ts_exchange = ts;
          ts_received = ts_received;
          side = side_unknown;
          price = pos 0;
          size = pos 0;
          seq = 0;
          is_snapshot = false;
        })
        m.changes

  abbrev parse_level2_wire : Level2Wire → Time → Result Level2Error Level2Frame
  parse_level2_wire m ts_received =
      if m.kind == codes "snapshot"
      then (do snap ← level2_snapshot m ts_received; ok (seed_frame snap))
      else if m.kind == codes "l2update"
      then (do ups ← level2_updates m ts_received; ok (update_frame ups))
      else if m.kind == codes "subscriptions"
      then ok empty_frame
      else if m.kind == codes "error"
      then err level2_rejected
      else err unexpected_level2_type

  unfoldable pub parse_level2 : Bytes → Time → Result Level2Error Level2Frame
  unfolding level2_snapshot level2_updates
  parse_level2 raw ts_received = do
    m ← or_fail bad_level2_json (d.message raw)
    parse_level2_wire m ts_received

-- A book, and the sequence number that the connector gave last.
pub record SeqBook : Type 0 where
  pub book : Book
  pub seq : ℕ

abbrev pub Books : Type 0
Books = Assoc Bytes SeqBook

abbrev pub book_or_new : Bytes → Option SeqBook → SeqBook
book_or_new symbol none = record { book = new name symbol; seq = 0 }
book_or_new symbol (some sb) = sb

module _ (p : Ports) where
  -- The loop over the updates of a frame: number, apply, store.
  unfoldable pub push_updates : List BookUpdate → SeqBook → SeqBook × List Effect
  push_updates [] sb = (sb, [])
  push_updates (u ∷ us) sb =
      let v = record u { seq = incr64 sb.seq } in
      let sb' : SeqBook = record { book = (apply sb.book v).0; seq = incr64 sb.seq } in
      let (last, out) = push_updates us sb' in (last, store p v ++ out)

  unfoldable pub reseed : BookSnapshot → SeqBook → SeqBook × List Effect
  reseed snap sb =
      let numbered = record snap { seq = incr64 sb.seq } in
      let b = apply_snapshot sb.book numbered in
      (record { book = b; seq = incr64 sb.seq }, emit_snapshot p numbered ++ observe p b)

  unfoldable pub dispatch : Books → Level2Frame → Books × List Effect
  unfolding push_updates reseed
  dispatch books (seed_frame snap) =
      let (sb, out) = reseed snap (book_or_new snap.symbol (lookup snap.symbol books)) in
      (insert snap.symbol sb books, out)
  dispatch books (update_frame []) = (books, [])
  dispatch books (update_frame (u ∷ us)) =
      let (sb, out) = push_updates (u ∷ us) (book_or_new u.symbol (lookup u.symbol books)) in
      (insert u.symbol sb books, out ++ observe p sb.book)
  dispatch books empty_frame = (books, [])

-- The totals of a session beside its books.
pub record BookLog : Type 0 where
  pub books : Books
  pub effects : List Effect
  pub messages : ℕ
  pub parse_errors : ℕ
  pub got_data : Bool
  pub rejected : Bool

module _ (p : Ports) (d : Level2Decoder) where
  abbrev pub on_parsed : Result Level2Error Level2Frame → BookLog → BookLog
  on_parsed (ok frame) log =
      let (books, out) = dispatch p log.books frame in
      record log { books = books; effects = log.effects ++ out; got_data = true }
  on_parsed (err level2_rejected) log = record log { rejected = true }
  on_parsed (err e) log = record log { parse_errors = log.parse_errors + 1 }

  unfoldable pub on_frame : BookLog → Bytes × Time → BookLog
  unfolding dispatch parse_level2
  on_frame log (raw, now) =
      on_parsed (parse_level2 d raw now) (record log { messages = log.messages + 1 })

  -- The read loop, over the frames that arrive before a read fails.
  unfoldable pub session : List (Bytes × Time) → BookLog → BookLog
  unfolding on_frame
  session [] log = log
  session (f ∷ fs) log =
      let next = on_frame log f in
      let rest = session fs next in if next.rejected then next else rest

-- The book connector's own copy of the reconnect loop.
unfoldable pub run_books : List Round → List ℕ × Bool
unfolding keep_alive
run_books = keep_alive backoff_low backoff_high backoff_low
