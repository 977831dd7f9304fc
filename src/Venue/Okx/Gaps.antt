-- ===== src/Venue/Okx/Gaps.antt =====
-- Lemmas about the books of a session of internal/venue/okx/book.go.
use tickstore.Prelude.{
  AllValues, AllValues-weaken, Bool-cases, Bytes, List, Option-cases, [], arith, bytes_eq, codes,
  false, inl, inr, insert-AllValues, int_eq, lookup, nat_eq, none, not, refl, some, true, u64_mod,
  ℕ, ◌+◌, ◌<◌, ◌==◌, ◌||◌, ◌∷◌, ◌≡◌, ◌≤◌,
}
use tickstore.Venue.Okx.{name, Envelope, ArgInfo, parse_millis}
use tickstore.Norm.{Time}
use tickstore.Book.Numbered.{new-Numbered}
use tickstore.Venue.InStep.{all_below_more, found_below}
use tickstore.Venue.Feed.{Ports}
use tickstore.Venue.Okx.Books.{BookData, SeqBook}
use tickstore.Venue.Okx.BookFeed.{
  BookDecoder, BookLog, Books, apply_book, apply_rows, book_or_new, on_frame, session, time_or_zero,
}
use tickstore.Venue.Okx.Numbers.{InStepAt, apply_frame-InStepAt, row_load, rows_load}

found_at :
    (n : ℕ) (inst_id : Bytes) (books : Books)
    → AllValues (InStepAt n) books
    → InStepAt n (book_or_new inst_id (lookup inst_id books))
found_at n inst_id books a =
    found_below (λ (sb : SeqBook). sb.book) (λ sb. sb.engine_seq) (book_or_new inst_id) n inst_id
      books (new-Numbered name inst_id, omega arith) (λ sb. refl) a

all_more :
    (m n : ℕ) (books : Books) → m ≤ n → AllValues (InStepAt m) books → AllValues (InStepAt n) books
all_more = all_below_more (λ (sb : SeqBook). sb.book) (λ sb. sb.engine_seq)

module _ (p : Ports) (d : BookDecoder) where
  apply_rows-InStepAt :
      (arg : ArgInfo) (action : Bytes) (now : Time) (rows : List BookData) (books : Books) (n : ℕ)
      → AllValues (InStepAt n) books
      → n + rows_load rows + 2 < u64_mod
      → AllValues (InStepAt (n + rows_load rows)) (apply_rows p d arg action now rows books).state
  unfolding apply_rows apply_book rows_load
  apply_rows-InStepAt arg action now [] books n a fits = all_more n (n + 0) books (omega arith) a
  apply_rows-InStepAt arg action now (row ∷ rows) books n a fits =
      let sb = book_or_new arg.inst_id (lookup arg.inst_id books) in
      let first = apply_book p d arg action now row books in
      let kept : AllValues (InStepAt (n + row_load row)) first.state =
        insert-AllValues (InStepAt (n + row_load row)) arg.inst_id _ books
          (apply_frame-InStepAt p arg.inst_id (action == codes "snapshot")
            (time_or_zero (parse_millis row.ts)) now row sb n (found_at n arg.inst_id books a)
            (omega arith))
          (all_more n (n + row_load row) books (omega arith) a) in
      let rest =
        apply_rows-InStepAt arg action now rows first.state (n + row_load row) kept (omega arith) in
      elim (Option-cases first.error) [
        | inr (x, e) ↦
            rw (apply_rows, e)
              (all_more (n + row_load row) (n + (row_load row + rows_load rows)) first.state
                (omega arith) kept)
        | inl e ↦
            rw (apply_rows, e)
              (all_more (n + row_load row + rows_load rows) (n + (row_load row + rows_load rows))
                (apply_rows p d arg action now rows first.state).state (omega arith) rest)
      ]

  -- The numbers that a frame takes at most.
  abbrev pub frame_load : Bytes → ℕ
  frame_load raw = elim (d.envelope raw) [
    | none ↦ 0
    | some e ↦ elim (d.rows e.payload) [ none ↦ 0 | some rows ↦ rows_load rows ]
  ]

  unfoldable pub frames_load : List (Bytes × Time) → ℕ
  frames_load [] = 0
  frames_load (f ∷ fs) = frame_load f.0 + frames_load fs

  load_of_rows :
      (raw : Bytes) (e : Envelope) (rows : List BookData)
      → d.envelope raw ≡ some e
      → d.rows e.payload ≡ some rows
      → frame_load raw ≡ rows_load rows
  load_of_rows raw e rows h k = rw (frame_load, h, k) refl

  on_frame-InStepAt :
      (log : BookLog) (f : Bytes × Time) (n : ℕ)
      → AllValues (InStepAt n) log.books
      → n + frame_load f.0 + 2 < u64_mod
      → AllValues (InStepAt (n + frame_load f.0)) (on_frame p d log f).books
  unfolding on_frame
  on_frame-InStepAt log (raw, now) n a fits =
      let same = all_more n (n + frame_load raw) log.books (omega arith) a in
      elim (Bool-cases (raw == codes "pong")) [
        | inl q ↦ rw q same
        | inr q ↦ elim (Option-cases (d.envelope raw)) [
          | inl e ↦ rw (q, e) same
          | inr (env, e) ↦ elim (Bool-cases (env.event == codes "error")) [
            | inl m ↦ rw (q, e, m) same
            | inr m ↦
                elim (Bool-cases (not (env.arg.channel == codes "books") || env.payload == [])) [
                  | inl b ↦ rw (q, e, m, b) same
                  | inr b ↦ elim (Option-cases (d.rows env.payload)) [
                    | inl g ↦ rw (q, e, m, b, g) same
                    | inr (rows, g) ↦
                        let load : frame_load raw ≡ rows_load rows =
                          load_of_rows raw env rows e g in
                        rw (load, q, e, m, b, g)
                          (apply_rows-InStepAt env.arg env.action now rows log.books n a
                            (omega (arith, load, fits)))
                  ]
                ]
          ]
        ]
      ]

  session-InStepAt :
      (fs : List (Bytes × Time)) (log : BookLog) (n : ℕ)
      → AllValues (InStepAt n) log.books
      → n + frames_load fs + 2 < u64_mod
      → AllValues (InStepAt (n + frames_load fs)) (session p d fs log).books
  unfolding session frames_load
  session-InStepAt [] log n a fits = all_more n (n + 0) log.books (omega arith) a
  session-InStepAt (f ∷ fs) log n a fits =
      let next = on_frame p d log f in
      let kept = on_frame-InStepAt log f n a (omega arith) in
      elim (Option-cases next.error) [
        | inr (x, e) ↦
            rw (session, e)
              (all_more (n + frame_load f.0) (n + (frame_load f.0 + frames_load fs)) next.books
                (omega arith) kept)
        | inl e ↦
            rw (session, e)
              (all_more (n + frame_load f.0 + frames_load fs)
                (n + (frame_load f.0 + frames_load fs)) (session p d fs next).books (omega arith)
                (session-InStepAt fs next (n + frame_load f.0) kept (omega arith)))
      ]

-- A session that has read nothing.
abbrev pub new_log : BookLog
new_log = record {
  books = [];
  effects = [];
  messages = 0;
  parse_errors = 0;
  got_data = false;
  error = none;
}

-- Whatever frames a session reads (with fewer than 2^64 - 2 rows and levels), and wherever an error
-- ends it, the engine has counted no gap in any book of the session, and a synced book stands at the
-- number that the connector gave last.
pub session-gaps :
    (p : Ports) (d : BookDecoder) (fs : List (Bytes × Time))
    → frames_load p d fs + 2 < u64_mod
    → AllValues
        (λ sb. (sb.book.gaps ≡ 0) × (sb.book.synced ≡ true → sb.book.last_seq ≡ sb.engine_seq))
        (session p d fs new_log).books
session-gaps p d fs fits =
    AllValues-weaken (InStepAt (0 + frames_load p d fs))
      (λ sb. (sb.book.gaps ≡ 0) × (sb.book.synced ≡ true → sb.book.last_seq ≡ sb.engine_seq))
      (session p d fs new_log).books (λ sb h. (h.0.no_gaps, h.0.linked))
      (session-InStepAt p d fs new_log 0 tt (omega (arith, fits)))
