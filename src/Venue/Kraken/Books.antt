-- ===== src/Venue/Kraken/Books.antt =====
-- internal/venue/kraken/book.go and bookparse.go: Kraken's book feed and its checksum.
use tickstore.Prelude.{
  Bool, Bytes, List, Option, Result, [], bytes_eq, err, false, if◌then◌else◌, int_eq, nat_eq, none,
  ok, pos, some, wrap_error, ℕ, ℤ, ◌++◌, ◌==◌, ◌>>=◌, ◌∷◌,
}
use tickstore.Norm.{
  BookSnapshot, BookUpdate, Level, Time, buy, price_decimals, sell, side_unknown, size_decimals,
}
use tickstore.Norm.Fixed.{FixedError, parse_fixed}
use tickstore.Book.{Book, apply, apply_snapshot, incr64, trim}
use tickstore.Book.Views.{depth}
use tickstore.Venue.Feed.{Effect, Ports, count_gap, count_resync, emit_snapshot, observe, store}
use tickstore.Venue.Kraken.{name}
use tickstore.Venue.Kraken.Checksum.{book_checksum}

abbrev pub book_depth : ℕ
book_depth = 10

pub record BookLevelWire : Type 0 where
  pub price : Bytes
  pub qty : Bytes

pub record BookDataWire : Type 0 where
  pub symbol : Bytes
  pub bids : List BookLevelWire
  pub asks : List BookLevelWire
  pub checksum : ℕ
  pub timestamp : Bytes

pub record Precision : Type 0 where
  pub price : ℤ
  pub qty : ℤ

-- A book, and the sequence number that the connector gave last.
pub record SeqBook : Type 0 where
  pub book : Book
  pub seq : ℕ

-- What ends a session; `index_panic` ends the program.
pub data BookError : Type 0 where
  level_price level_qty : FixedError → BookError
  checksum_mismatch index_panic rejected : BookError

unfoldable pub parse_level : BookLevelWire → Result BookError Level
parse_level w = do
  price ← wrap_error level_price (parse_fixed w.price (pos price_decimals))
  qty ← wrap_error level_qty (parse_fixed w.qty (pos size_decimals))
  ok (record { price = price; size = qty })

unfoldable pub parse_book_levels : List BookLevelWire → Result BookError (List Level)
unfolding parse_level
parse_book_levels [] = ok []
parse_book_levels (w ∷ ws) = do l ← parse_level w; ls ← parse_book_levels ws; ok (l ∷ ls)

-- The state after a step, the calls that it made, and the error that it returned.
pub record Step (S : Type 0) : Type 0 where
  pub state : S
  pub effects : List Effect
  pub error : Option BookError

-- What `applyBook` puts in every snapshot and in every update of a frame.
abbrev pub frame_header : Bytes → Time → Time → BookSnapshot
frame_header symbol ts_exchange ts_received = record {
  venue = name;
  symbol = symbol;
  ts_exchange = ts_exchange;
  ts_received = ts_received;
  bids = [];
  asks = [];
  seq = 0;
}

abbrev pub frame_template : Bytes → Time → Time → BookUpdate
frame_template symbol ts_exchange ts_received = record {
  venue = name;
  symbol = symbol;
  ts_exchange = ts_exchange;
  ts_received = ts_received;
  side = side_unknown;
  price = pos 0;
  size = pos 0;
  seq = 0;
  is_snapshot = false;
}

module _ (p : Ports) where
  -- One level change under the next sequence number.
  unfoldable pub push : SeqBook → BookUpdate → SeqBook × List Effect
  push sb u =
      let v = record u { seq = incr64 sb.seq } in
      (record { book = (apply sb.book v).0; seq = incr64 sb.seq }, store p v)

  -- `template` holds what all updates of the call share.
  unfoldable pub apply_changes : BookUpdate → List BookLevelWire → SeqBook → Step SeqBook
  unfolding push parse_level
  apply_changes template [] sb = record { state = sb; effects = []; error = none }
  apply_changes template (w ∷ ws) sb = elim (parse_level w) [
    | err e ↦ record { state = sb; effects = []; error = some e }
    | ok l ↦
        let (sb', out) = push sb (record template { price = l.price; size = l.size }) in
        let rest = apply_changes template ws sb' in record rest { effects = out ++ rest.effects }
  ]

  -- The branch of a snapshot frame.
  unfoldable pub apply_seed : BookSnapshot → BookDataWire → SeqBook → Step SeqBook
  apply_seed header d sb = elim (parse_book_levels d.bids) [
    | err e ↦ record { state = sb; effects = []; error = some e }
    | ok bids ↦ elim (parse_book_levels d.asks) [
      | err e ↦ record { state = sb; effects = []; error = some e }
      | ok asks ↦
          let snap = record header { bids = bids; asks = asks; seq = incr64 sb.seq } in
          record {
            state = record { book = apply_snapshot sb.book snap; seq = incr64 sb.seq };
            effects = emit_snapshot p snap;
            error = none;
          }
    ]
  ]

  -- The branch of an update frame: bids, then asks.
  unfoldable pub apply_both : BookUpdate → BookDataWire → SeqBook → Step SeqBook
  unfolding apply_changes
  apply_both template d sb =
      let first = apply_changes (record template { side = buy }) d.bids sb in
      let second = apply_changes (record template { side = sell }) d.asks first.state in
      elim first.error [
        | some e ↦ first
        | none ↦ record second { effects = first.effects ++ second.effects }
      ]

  -- Trim, validate against the checksum where the precision is known, notify.
  unfoldable pub validate : Option Precision → ℕ → SeqBook → Step SeqBook
  validate none want sb = record { state = sb; effects = observe p sb.book; error = none }
  validate (some prec) want sb =
      let (bids, asks) = depth sb.book (pos 10) in
      elim (book_checksum bids asks prec.price prec.qty) [
        | none ↦ record { state = sb; effects = []; error = some index_panic }
        | some got ↦
            if got == want
            then record { state = sb; effects = observe p sb.book; error = none }
            else record {
              state = sb;
              effects = count_gap ∷ count_resync ∷ [];
              error = some checksum_mismatch;
            }
      ]

  abbrev pub trim_book : SeqBook → SeqBook
  trim_book sb = record sb { book = trim sb.book book_depth }

  -- What `applyBook` does behind the snapshot or the update, unless this has failed.
  unfoldable pub finish : Option Precision → ℕ → Step SeqBook → Step SeqBook
  unfolding validate
  finish prec want applied =
      let checked = validate prec want (trim_book applied.state) in
      elim applied.error [
        | some e ↦ applied
        | none ↦ record checked { effects = applied.effects ++ checked.effects }
      ]

  -- What `applyBook` does to the book of the frame's symbol.
  unfoldable pub apply_frame :
      (is_snapshot : Bool)
      → Option Precision
      → (ts_exchange ts_received : Time) → BookDataWire
      → SeqBook
      → Step SeqBook
  unfolding apply_seed apply_both finish
  apply_frame is_snapshot prec ts_exchange ts_received d sb =
      let header = frame_header d.symbol ts_exchange ts_received in
      let template = frame_template d.symbol ts_exchange ts_received in
      let applied = if is_snapshot then apply_seed header d sb else apply_both template d sb in
      finish prec d.checksum applied
