-- ===== src/Venue/Kraken/BookFeed.antt =====
-- internal/venue/kraken/book.go: the session of the book feed.
use tickstore.Prelude.{
  Assoc, Bool, Bytes, List, Option, [], bytes_eq, codes, if◌then◌else◌, insert, int_eq, lookup,
  nat_eq, none, not, some, true, ℕ, ℤ, ◌++◌, ◌+◌, ◌==◌, ◌∷◌,
}
use tickstore.Norm.{Time, zero_time}
use tickstore.Book.{new}
use tickstore.Venue.Feed.{Effect, Ports}
use tickstore.Venue.Kraken.{Envelope, name, said_no}
use tickstore.Venue.Kraken.Books.{
  Precision, SeqBook, BookDataWire, BookError, Step, apply_frame, rejected,
}

-- The session's maps.
pub record Session : Type 0 where
  pub precisions : Assoc Bytes Precision
  pub books : Assoc Bytes SeqBook

abbrev pub book_or_new : Bytes → Option SeqBook → SeqBook
book_or_new symbol none = record { book = new name symbol; seq = 0 }
book_or_new symbol (some sb) = sb

abbrev pub time_or_zero : Option Time → Time
time_or_zero none = zero_time
time_or_zero (some t) = t

pub record InstrumentPair : Type 0 where
  pub symbol : Bytes
  pub price_precision : ℤ
  pub qty_precision : ℤ

-- `json.Unmarshal` into the shapes of the book feed, and `time.Parse`.
pub record BookDecoder : Type 0 where
  pub envelope : Bytes → Option Envelope
  pub pairs : Bytes → Option (List InstrumentPair)
  pub rows : Bytes → Option (List BookDataWire)
  pub time : Bytes → Option Time

unfoldable pub learn : List InstrumentPair → Assoc Bytes Precision → Assoc Bytes Precision
learn [] m = m
learn (i ∷ is) m =
    learn is (insert i.symbol (record { price = i.price_precision; qty = i.qty_precision }) m)

-- The totals of a session beside its maps.
pub record BookLog : Type 0 where
  pub session : Session
  pub effects : List Effect
  pub messages : ℕ
  pub parse_errors : ℕ
  pub got_data : Bool
  pub error : Option BookError

module _ (p : Ports) (d : BookDecoder) where
  unfoldable pub apply_book : Bool → Time → BookDataWire → Session → Step Session
  unfolding apply_frame
  apply_book is_snapshot ts_received row s =
      let sb = book_or_new row.symbol (lookup row.symbol s.books) in
      let ts_exchange =
        if row.timestamp == [] then zero_time else time_or_zero (d.time row.timestamp) in
      let prec = lookup row.symbol s.precisions in
      let step = apply_frame p is_snapshot prec ts_exchange ts_received row sb in
      record {
        state = record s { books = insert row.symbol step.state s.books };
        effects = step.effects;
        error = step.error;
      }

  unfoldable pub apply_rows : Bool → Time → List BookDataWire → Session → Step Session
  unfolding apply_book
  apply_rows is_snapshot now [] s = record { state = s; effects = []; error = none }
  apply_rows is_snapshot now (row ∷ rows) s =
      let first = apply_book is_snapshot now row s in
      let rest = apply_rows is_snapshot now rows first.state in
      elim first.error [
        | some e ↦ first
        | none ↦ record rest { effects = first.effects ++ rest.effects }
      ]

  abbrev bad_frame : BookLog → BookLog
  bad_frame log = record log { parse_errors = log.parse_errors + 1 }

  -- A frame of the channel `instrument`, then one of the channel `book`.
  abbrev on_instrument : Option (List InstrumentPair) → BookLog → BookLog
  on_instrument none log = log
  on_instrument (some pairs) log = record log {
    session = record log.session { precisions = learn pairs log.session.precisions };
  }

  abbrev on_rows : Bool → Time → Option (List BookDataWire) → BookLog → BookLog
  on_rows is_snapshot now none log = bad_frame (record log { got_data = true })
  on_rows is_snapshot now (some rows) log =
      let step = apply_rows is_snapshot now rows log.session in
      record log {
        session = step.state;
        effects = log.effects ++ step.effects;
        got_data = true;
        error = step.error;
      }

  abbrev on_envelope : Option Envelope → Time → BookLog → BookLog
  on_envelope none now log = bad_frame log
  on_envelope (some e) now log =
      if not (e.method == [])
      then if said_no e.success then record log { error = some rejected } else log
      else if e.channel == codes "instrument"
      then on_instrument (d.pairs e.payload) log
      else if e.channel == codes "book"
      then on_rows (e.kind == codes "snapshot") now (d.rows e.payload) log
      else log

  unfoldable pub on_frame : BookLog → Bytes × Time → BookLog
  unfolding apply_rows learn
  on_frame log (raw, now) =
      on_envelope (d.envelope raw) now (record log { messages = log.messages + 1 })

  -- The read loop, over the frames that arrive before a read fails.
  unfoldable pub session : List (Bytes × Time) → BookLog → BookLog
  unfolding on_frame
  session [] log = log
  session (f ∷ fs) log =
      let next = on_frame log f in
      let rest = session fs next in elim next.error [ none ↦ rest | some e ↦ next ]
