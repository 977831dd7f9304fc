-- ===== src/Venue/Okx/BookFeed.antt =====
-- internal/venue/okx/book.go: the session of the book feed.
use tickstore.Prelude.{
  Assoc, Bool, Bytes, List, Option, [], bytes_eq, codes, false, if◌then◌else◌, insert, int_eq,
  lookup, nat_eq, none, not, pos, some, true, ℕ, ◌++◌, ◌+◌, ◌==◌, ◌||◌, ◌∷◌,
}
use tickstore.Norm.{Time, zero_time}
use tickstore.Book.{new}
use tickstore.Venue.Feed.{Effect, Ports}
use tickstore.Venue.Okx.{ArgInfo, Envelope, name, parse_millis}
use tickstore.Venue.Okx.Books.{BookData, SeqBook, BookError, Step, apply_frame, rejected}

abbrev pub Books : Type 0
Books = Assoc Bytes SeqBook

abbrev pub book_or_new : Bytes → Option SeqBook → SeqBook
book_or_new inst_id none = record {
  book = new name inst_id;
  engine_seq = 0;
  last_seq_id = pos 0;
  seeded = false;
}
book_or_new inst_id (some sb) = sb

abbrev pub time_or_zero : Option Time → Time
time_or_zero none = zero_time
time_or_zero (some t) = t

-- `json.Unmarshal` into the shapes of the book feed.
pub record BookDecoder : Type 0 where
  pub envelope : Bytes → Option Envelope
  pub rows : Bytes → Option (List BookData)

-- The totals of a session beside its books.
pub record BookLog : Type 0 where
  pub books : Books
  pub effects : List Effect
  pub messages : ℕ
  pub parse_errors : ℕ
  pub got_data : Bool
  pub error : Option BookError

module _ (p : Ports) (d : BookDecoder) where
  unfoldable pub apply_book : ArgInfo → Bytes → Time → BookData → Books → Step Books
  unfolding apply_frame parse_millis
  apply_book arg action ts_received row books =
      let sb = book_or_new arg.inst_id (lookup arg.inst_id books) in
      let ts_exchange = time_or_zero (parse_millis row.ts) in
      let step =
        apply_frame p arg.inst_id (action == codes "snapshot") ts_exchange ts_received row sb in
      record {
        state = insert arg.inst_id step.state books;
        effects = step.effects;
        error = step.error;
      }

  unfoldable pub apply_rows : ArgInfo → Bytes → Time → List BookData → Books → Step Books
  unfolding apply_book
  apply_rows arg action now [] books = record { state = books; effects = []; error = none }
  apply_rows arg action now (row ∷ rows) books =
      let first = apply_book arg action now row books in
      let rest = apply_rows arg action now rows first.state in
      elim first.error [
        | some e ↦ first
        | none ↦ record rest { effects = first.effects ++ rest.effects }
      ]

  abbrev bad_frame : BookLog → BookLog
  bad_frame log = record log { parse_errors = log.parse_errors + 1 }

  abbrev on_rows : Envelope → Time → Option (List BookData) → BookLog → BookLog
  on_rows e now none log = bad_frame log
  on_rows e now (some rows) log =
      let step = apply_rows e.arg e.action now rows log.books in
      record log {
        books = step.state;
        effects = log.effects ++ step.effects;
        got_data = true;
        error = step.error;
      }

  abbrev on_envelope : Option Envelope → Time → BookLog → BookLog
  on_envelope none now log = bad_frame log
  on_envelope (some e) now log =
      if e.event == codes "error"
      then record log { error = some rejected }
      else if not (e.arg.channel == codes "books") || e.payload == []
      then log
      else on_rows e now (d.rows e.payload) log

  unfoldable pub on_frame : BookLog → Bytes × Time → BookLog
  unfolding apply_rows
  on_frame log (raw, now) =
      let counted = record log { messages = log.messages + 1 } in
      if raw == codes "pong" then counted else on_envelope (d.envelope raw) now counted

  -- The read loop, over the frames that arrive before a read fails.
  unfoldable pub session : List (Bytes × Time) → BookLog → BookLog
  unfolding on_frame
  session [] log = log
  session (f ∷ fs) log =
      let next = on_frame log f in
      let rest = session fs next in elim next.error [ none ↦ rest | some e ↦ next ]
