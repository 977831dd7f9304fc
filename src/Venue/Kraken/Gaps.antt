-- ===== src/Venue/Kraken/Gaps.antt =====
-- Lemmas about the books of a session of internal/venue/kraken/book.go.
use tickstore.Prelude.{
  AllValues, AllValues-weaken, Assoc, Bool, Bool-cases, Bytes, List, Option-cases, [], arith,
  bytes_eq, codes, false, if◌then◌else◌, inl, inr, insert-AllValues, int_eq, lookup, nat_eq, none,
  refl, some, true, u64_mod, ℕ, ◌+◌, ◌<◌, ◌==◌, ◌∷◌, ◌≡◌, ◌≤◌,
}
use tickstore.Norm.{Time, zero_time}
use tickstore.Book.Numbered.{new-Numbered}
use tickstore.Venue.InStep.{all_below_more, found_below}
use tickstore.Venue.Feed.{Ports}
use tickstore.Venue.Kraken.{name, said_no, Envelope}
use tickstore.Venue.Kraken.Books.{BookDataWire, SeqBook}
use tickstore.Venue.Kraken.BookFeed.{
  BookDecoder, BookLog, Session, apply_book, apply_rows, book_or_new, on_frame, session,
  time_or_zero,
}
use tickstore.Venue.Kraken.Numbers.{InStepAt, apply_frame-InStepAt, row_load, rows_load}

found_at :
    (n : ℕ) (symbol : Bytes) (books : Assoc Bytes SeqBook)
    → AllValues (InStepAt n) books
    → InStepAt n (book_or_new symbol (lookup symbol books))
found_at n symbol books a =
    found_below (λ (sb : SeqBook). sb.book) (λ sb. sb.seq) (book_or_new symbol) n symbol books
      (new-Numbered name symbol, omega arith) (λ sb. refl) a

all_more :
    (m n : ℕ) (books : Assoc Bytes SeqBook)
    → m ≤ n
    → AllValues (InStepAt m) books
    → AllValues (InStepAt n) books
all_more = all_below_more (λ (sb : SeqBook). sb.book) (λ sb. sb.seq)

module _ (p : Ports) (d : BookDecoder) where
  apply_rows-InStepAt :
      (is_snapshot : Bool) (now : Time) (rows : List BookDataWire) (s : Session) (n : ℕ)
      → AllValues (InStepAt n) s.books
      → n + rows_load rows + 2 < u64_mod
      → AllValues
          (InStepAt (n + rows_load rows))
          (apply_rows p d is_snapshot now rows s).state.books
  unfolding apply_rows apply_book rows_load
  apply_rows-InStepAt is_snapshot now [] s n a fits = all_more n (n + 0) s.books (omega arith) a
  apply_rows-InStepAt is_snapshot now (row ∷ rows) s n a fits =
      let sb = book_or_new row.symbol (lookup row.symbol s.books) in
      let first = apply_book p d is_snapshot now row s in
      let kept : AllValues (InStepAt (n + row_load row)) first.state.books =
        insert-AllValues (InStepAt (n + row_load row)) row.symbol _ s.books
          (apply_frame-InStepAt p is_snapshot (lookup row.symbol s.precisions)
            (if row.timestamp == [] then zero_time else time_or_zero (d.time row.timestamp)) now row
            sb n (found_at n row.symbol s.books a) (omega arith))
          (all_more n (n + row_load row) s.books (omega arith) a) in
      let rest =
        apply_rows-InStepAt is_snapshot now rows first.state (n + row_load row) kept
          (omega arith) in
      elim (Option-cases first.error) [
        | inr (x, e) ↦
            rw (apply_rows, e)
              (all_more (n + row_load row) (n + (row_load row + rows_load rows)) first.state.books
                (omega arith) kept)
        | inl e ↦
            rw (apply_rows, e)
              (all_more (n + row_load row + rows_load rows) (n + (row_load row + rows_load rows))
                (apply_rows p d is_snapshot now rows first.state).state.books (omega arith) rest)
      ]

  -- The numbers that a frame takes at most.
  abbrev pub frame_load : Bytes → ℕ
  frame_load raw = elim (d.envelope raw) [
    | none ↦ 0
    | some e ↦ elim (d.rows e.payload) [ none ↦ 0 | some rows ↦ rows_load rows ]
  ]

  unfoldable pub frames_load : List (Bytes × Time) → ℕ
  frames_load [] = 0
  frames_load (f ∷ fs) = frame_load f.0 + frames_load fs

  load_of_rows :
      (raw : Bytes) (e : Envelope) (rows : List BookDataWire)
      → d.envelope raw ≡ some e
      → d.rows e.payload ≡ some rows
      → frame_load raw ≡ rows_load rows
  load_of_rows raw e rows h k = rw (frame_load, h, k) refl

  on_frame-InStepAt :
      (log : BookLog) (f : Bytes × Time) (n : ℕ)
      → AllValues (InStepAt n) log.session.books
      → n + frame_load f.0 + 2 < u64_mod
      → AllValues (InStepAt (n + frame_load f.0)) (on_frame p d log f).session.books
  unfolding on_frame
  on_frame-InStepAt log (raw, now) n a fits =
      let same = all_more n (n + frame_load raw) log.session.books (omega arith) a in
      elim (Option-cases (d.envelope raw)) [
        | inl e ↦ rw e same
        | inr (env, e) ↦ elim (Bool-cases (env.method == [])) [
          | inr m ↦ elim (Bool-cases (said_no env.success)) [
            | inl s ↦ rw (e, m, s) same
            | inr s ↦ rw (e, m, s) same
          ]
          | inl m ↦ elim (Bool-cases (env.channel == codes "instrument")) [
            | inl i ↦ elim (Option-cases (d.pairs env.payload)) [
              | inl g ↦ rw (e, m, i, g) same
              | inr (pairs, g) ↦ rw (e, m, i, g) same
            ]
            | inr i ↦ elim (Bool-cases (env.channel == codes "book")) [
              | inr b ↦ rw (e, m, i, b) same
              | inl b ↦ elim (Option-cases (d.rows env.payload)) [
                | inl g ↦ rw (e, m, i, b, g) same
                | inr (rows, g) ↦
                    let load : frame_load raw ≡ rows_load rows = load_of_rows raw env rows e g in
                    rw (load, e, m, i, b, g)
                      (apply_rows-InStepAt (env.kind == codes "snapshot") now rows log.session n a
                        (omega (arith, load, fits)))
              ]
            ]
          ]
        ]
      ]

  session-InStepAt :
      (fs : List (Bytes × Time)) (log : BookLog) (n : ℕ)
      → AllValues (InStepAt n) log.session.books
      → n + frames_load fs + 2 < u64_mod
      → AllValues (InStepAt (n + frames_load fs)) (session p d fs log).session.books
  unfolding session frames_load
  session-InStepAt [] log n a fits = all_more n (n + 0) log.session.books (omega arith) a
  session-InStepAt (f ∷ fs) log n a fits =
      let next = on_frame p d log f in
      let kept = on_frame-InStepAt log f n a (omega arith) in
      elim (Option-cases next.error) [
        | inr (x, e) ↦
            rw (session, e)
              (all_more (n + frame_load f.0) (n + (frame_load f.0 + frames_load fs))
                next.session.books (omega arith) kept)
        | inl e ↦
            rw (session, e)
              (all_more (n + frame_load f.0 + frames_load fs)
                (n + (frame_load f.0 + frames_load fs)) (session p d fs next).session.books
                (omega arith) (session-InStepAt fs next (n + frame_load f.0) kept (omega arith)))
      ]

-- A session that has read nothing.
abbrev pub new_log : BookLog
new_log = record {
  session = record { precisions = []; books = [] };
  effects = [];
  messages = 0;
  parse_errors = 0;
  got_data = false;
  error = none;
}

-- Whatever frames a session reads (with fewer than 2^64 - 2 rows and levels), and wherever an error
-- ends it, no book of the session has counted a gap of its own, and a synced book stands at the
-- number that the connector gave last.
pub session-no_gaps :
    (p : Ports) (d : BookDecoder) (fs : List (Bytes × Time))
    → frames_load p d fs + 2 < u64_mod
    → AllValues
        (λ sb. (sb.book.gaps ≡ 0) × (sb.book.synced ≡ true → sb.book.last_seq ≡ sb.seq))
        (session p d fs new_log).session.books
session-no_gaps p d fs fits =
    AllValues-weaken (InStepAt (0 + frames_load p d fs))
      (λ sb. (sb.book.gaps ≡ 0) × (sb.book.synced ≡ true → sb.book.last_seq ≡ sb.seq))
      (session p d fs new_log).session.books (λ sb h. (h.0.no_gaps, h.0.linked))
      (session-InStepAt p d fs new_log 0 tt (omega (arith, fits)))
