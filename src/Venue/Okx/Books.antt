-- ===== src/Venue/Okx/Books.antt =====
-- internal/venue/okx/book.go and bookparse.go: OKX's book feed and its sequence linkage.
use tickstore.Prelude.{
  Bool, Bytes, List, Option, Result, [], bytes_eq, err, false, if◌then◌else◌, int_eq, nat_eq, none,
  not, ok, pos, some, true, wrap_error, ℕ, ℤ, ◌&&◌, ◌++◌, ◌==◌, ◌>>=◌, ◌∷◌,
}
use tickstore.Norm.{
  BookSnapshot, BookUpdate, Level, Time, buy, price_decimals, sell, side_unknown, size_decimals,
}
use tickstore.Norm.Fixed.{FixedError, parse_fixed}
use tickstore.Book.{Book, apply, apply_snapshot, incr64}
use tickstore.Venue.Feed.{Effect, Ports, count_gap, count_resync, emit_snapshot, observe, store}
use tickstore.Venue.Okx.{name}

pub record BookData : Type 0 where
  pub asks : List (List Bytes)
  pub bids : List (List Bytes)
  pub ts : Bytes
  pub seq_id : ℤ
  pub prev_seq_id : ℤ

-- A book, the engine's sequence number, and OKX's number of the last applied frame.
pub record SeqBook : Type 0 where
  pub book : Book
  pub engine_seq : ℕ
  pub last_seq_id : ℤ
  pub seeded : Bool

pub data BookError : Type 0 where
  short_level : BookError
  level_price level_size : FixedError → BookError
  seq_gap rejected : BookError

unfoldable pub contiguous : SeqBook → ℤ → Bool
contiguous sb prev_seq_id = sb.seeded && prev_seq_id == sb.last_seq_id

unfoldable pub parse_row : List Bytes → Result BookError Level
parse_row (p ∷ s ∷ rest) = do
  price ← wrap_error level_price (parse_fixed p (pos price_decimals))
  size ← wrap_error level_size (parse_fixed s (pos size_decimals))
  ok (record { price = price; size = size })
parse_row _ = err short_level

unfoldable pub parse_book_levels : List (List Bytes) → Result BookError (List Level)
unfolding parse_row
parse_book_levels [] = ok []
parse_book_levels (r ∷ rs) = do l ← parse_row r; ls ← parse_book_levels rs; ok (l ∷ ls)

-- The state after a step, the calls that it made, and the error that it returned.
pub record Step (S : Type 0) : Type 0 where
  pub state : S
  pub effects : List Effect
  pub error : Option BookError

-- What `applyBook` puts in every snapshot and in every update of a frame.
abbrev pub frame_header : Bytes → Time → Time → BookSnapshot
frame_header inst_id ts_exchange ts_received = record {
  venue = name;
  symbol = inst_id;
  ts_exchange = ts_exchange;
  ts_received = ts_received;
  bids = [];
  asks = [];
  seq = 0;
}

abbrev pub frame_template : Bytes → Time → Time → BookUpdate
frame_template inst_id ts_exchange ts_received = record {
  venue = name;
  symbol = inst_id;
  ts_exchange = ts_exchange;
  ts_received = ts_received;
  side = side_unknown;
  price = pos 0;
  size = pos 0;
  seq = 0;
  is_snapshot = false;
}

module _ (p : Ports) where
  unfoldable pub push_levels : BookUpdate → List Level → SeqBook → SeqBook × List Effect
  push_levels template [] sb = (sb, [])
  push_levels template (l ∷ ls) sb =
      let v = record template { price = l.price; size = l.size; seq = incr64 sb.engine_seq } in
      let sb' = record sb { book = (apply sb.book v).0; engine_seq = incr64 sb.engine_seq } in
      let (last, out) = push_levels template ls sb' in (last, store p v ++ out)

  -- All rows of a side are parsed before one of them is applied.
  unfoldable pub apply_changes : BookUpdate → List (List Bytes) → SeqBook → Step SeqBook
  unfolding push_levels
  apply_changes template rows sb = elim (parse_book_levels rows) [
    | err e ↦ record { state = sb; effects = []; error = some e }
    | ok levels ↦
        let (sb', out) = push_levels template levels sb in
        record { state = sb'; effects = out; error = none }
  ]

  -- The branch of a snapshot.
  unfoldable pub apply_seed : BookSnapshot → BookData → SeqBook → Step SeqBook
  apply_seed header d sb = elim (parse_book_levels d.bids) [
    | err e ↦ record { state = sb; effects = []; error = some e }
    | ok bids ↦ elim (parse_book_levels d.asks) [
      | err e ↦ record { state = sb; effects = []; error = some e }
      | ok asks ↦
          let snap = record header { bids = bids; asks = asks; seq = incr64 sb.engine_seq } in
          record {
            state = record {
              book = apply_snapshot sb.book snap;
              engine_seq = incr64 sb.engine_seq;
              last_seq_id = d.seq_id;
              seeded = true;
            };
            effects = emit_snapshot p snap;
            error = none;
          }
    ]
  ]

  -- The branch of an update: bids, asks, and the frame's number where both were applied.
  unfoldable pub apply_linked : BookUpdate → BookData → SeqBook → Step SeqBook
  unfolding contiguous apply_changes
  apply_linked template d sb =
      let first = apply_changes (record template { side = buy }) d.bids sb in
      let second = apply_changes (record template { side = sell }) d.asks first.state in
      let both = record second { effects = first.effects ++ second.effects } in
      if not (contiguous sb d.prev_seq_id)
      then record { state = sb; effects = count_gap ∷ count_resync ∷ []; error = some seq_gap }
      else elim first.error [
        | some e ↦ first
        | none ↦ elim second.error [
          | some e ↦ both
          | none ↦ record both { state = record second.state { last_seq_id = d.seq_id } }
        ]
      ]

  -- The end of `applyBook`, which an error does not reach.
  unfoldable pub notify : Step SeqBook → Step SeqBook
  notify applied = elim applied.error [
    | some e ↦ applied
    | none ↦ record applied { effects = applied.effects ++ observe p applied.state.book }
  ]

  -- What `applyBook` does to the book of the frame's instrument.
  unfoldable pub apply_frame :
      (inst_id : Bytes)
      → (is_snapshot : Bool) → (ts_exchange ts_received : Time) → BookData
      → SeqBook
      → Step SeqBook
  unfolding apply_seed apply_linked notify
  apply_frame inst_id is_snapshot ts_exchange ts_received d sb =
      let header = frame_header inst_id ts_exchange ts_received in
      let template = frame_template inst_id ts_exchange ts_received in
      notify (if is_snapshot then apply_seed header d sb else apply_linked template d sb)
