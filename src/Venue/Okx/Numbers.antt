-- ===== src/Venue/Okx/Numbers.antt =====
-- Lemmas about the numbers that the book feed of internal/venue/okx/book.go gives to the engine.
use tickstore.Prelude.{
  refl, >>=-eq-ok, Bool, Bool-cases, Bytes, List, Option-cases, Result-cases, [], ap, arith,
  bytes_eq, false, inl, inr, int_eq, length, nat_eq, ok, ok_inj, suc, sym, true, u64_mod, ℕ, ◌+◌,
  ◌<◌, ◌∙◌, ◌∷◌, ◌≡◌, ◌≤◌,
}
use tickstore.Norm.{BookSnapshot, BookUpdate, Level, Time, buy, sell}
use tickstore.Book.{apply, incr64}
use tickstore.Venue.InStep.{InStepBelow, below_more, apply_next-Numbered, snapshot_next-Numbered}
use tickstore.Venue.Feed.{Ports}
use tickstore.Venue.Okx.Books.{
  BookData, SeqBook, Step, apply_changes, apply_frame, apply_linked, apply_seed, contiguous,
  frame_header, frame_template, notify, parse_book_levels, parse_row, push_levels,
}

-- A book that stands at the number given last, which is at most `n`.
abbrev pub InStepAt : ℕ → SeqBook → Type 0
InStepAt = InStepBelow (λ (sb : SeqBook). sb.book) (λ sb. sb.engine_seq)

pub at_more : (m n : ℕ) (sb : SeqBook) → m ≤ n → InStepAt m sb → InStepAt n sb
at_more = below_more (λ (sb : SeqBook). sb.book) (λ sb. sb.engine_seq)

-- The numbers that a row of a frame takes at most.
abbrev pub row_load : BookData → ℕ
row_load d = 1 + (length d.bids + length d.asks)

unfoldable pub rows_load : List BookData → ℕ
rows_load [] = 0
rows_load (d ∷ ds) = row_load d + rows_load ds

length-parse_book_levels :
    (rows : List (List Bytes)) (ls : List Level)
    → parse_book_levels rows ≡ ok ls
    → length ls ≡ length rows
unfolding parse_book_levels
length-parse_book_levels [] ls h = ap length (sym (ok_inj h))
length-parse_book_levels (r ∷ rs) ls h =
    let (l, first, h0) = >>=-eq-ok (parse_row r) _ h in
    let (rest, later, h1) = >>=-eq-ok (parse_book_levels rs) _ h0 in
    ap length (sym (ok_inj h1)) ∙ ap suc (length-parse_book_levels rs rest later)

module _ (p : Ports) where
  push_levels-InStepAt :
      (template : BookUpdate) (ls : List Level) (sb : SeqBook) (n : ℕ)
      → InStepAt n sb
      → n + length ls + 2 < u64_mod
      → InStepAt (n + length ls) (push_levels p template ls sb).0
  unfolding push_levels
  push_levels-InStepAt template [] sb n h fits = at_more n (n + 0) sb (omega arith) h
  push_levels-InStepAt template (l ∷ ls) sb n h fits =
      let v = record template { price = l.price; size = l.size; seq = incr64 sb.engine_seq } in
      let sb' : SeqBook = record sb {
        book = (apply sb.book v).0;
        engine_seq = incr64 sb.engine_seq;
      } in
      at_more (n + 1 + length ls) (n + suc (length ls)) (push_levels p template ls sb').0
        (omega arith)
        (push_levels-InStepAt template ls sb' (n + 1)
          (apply_next-Numbered sb.book sb.engine_seq n v h.0 h.1 (omega arith) refl) (omega arith))

  apply_changes-InStepAt :
      (template : BookUpdate) (rows : List (List Bytes)) (sb : SeqBook) (n : ℕ)
      → InStepAt n sb
      → n + length rows + 2 < u64_mod
      → InStepAt (n + length rows) (apply_changes p template rows sb).state
  unfolding apply_changes
  apply_changes-InStepAt template rows sb n h fits = elim (Result-cases (parse_book_levels rows)) [
    | inr (x, e) ↦ rw (apply_changes, e) (at_more n (n + length rows) sb (omega arith) h)
    | inl (ls, e) ↦
        let size = length-parse_book_levels rows ls e in
        rw (apply_changes, e)
          (at_more (n + length ls) (n + length rows) (push_levels p template ls sb).0
            (omega (arith, size))
            (push_levels-InStepAt template ls sb n h (omega (arith, size, fits))))
  ]

  apply_seed-InStepAt :
      (header : BookSnapshot) (d : BookData) (sb : SeqBook) (n : ℕ)
      → InStepAt n sb
      → n + 2 < u64_mod
      → InStepAt (n + 1) (apply_seed p header d sb).state
  unfolding apply_seed
  apply_seed-InStepAt header d sb n h fits = elim (Result-cases (parse_book_levels d.bids)) [
    | inr (x, e) ↦ rw (apply_seed, e) (at_more n (n + 1) sb (omega arith) h)
    | inl (bids, e) ↦ elim (Result-cases (parse_book_levels d.asks)) [
      | inr (x, f) ↦ rw (apply_seed, e, f) (at_more n (n + 1) sb (omega arith) h)
      | inl (asks, f) ↦
          let snap = record header { bids = bids; asks = asks; seq = incr64 sb.engine_seq } in
          rw (apply_seed, e, f)
            (snapshot_next-Numbered sb.book sb.engine_seq n snap h.0 h.1 fits refl)
    ]
  ]

  apply_linked-InStepAt :
      (template : BookUpdate) (d : BookData) (sb : SeqBook) (n : ℕ)
      → InStepAt n sb
      → n + (length d.bids + length d.asks) + 2 < u64_mod
      → InStepAt (n + (length d.bids + length d.asks)) (apply_linked p template d sb).state
  unfolding apply_linked
  apply_linked-InStepAt template d sb n h fits =
      let first = apply_changes p (record template { side = buy }) d.bids sb in
      let second = apply_changes p (record template { side = sell }) d.asks first.state in
      let one =
        apply_changes-InStepAt (record template { side = buy }) d.bids sb n h (omega arith) in
      let two =
        apply_changes-InStepAt (record template { side = sell }) d.asks first.state
          (n + length d.bids) one (omega arith) in
      let all : InStepAt (n + (length d.bids + length d.asks)) second.state =
        at_more (n + length d.bids + length d.asks) (n + (length d.bids + length d.asks))
          second.state (omega arith) two in
      elim (Bool-cases (contiguous sb d.prev_seq_id)) [
        | inr broken ↦
            rw (apply_linked, broken)
              (at_more n (n + (length d.bids + length d.asks)) sb (omega arith) h)
        | inl linked ↦ elim (Option-cases first.error) [
          | inr (x, e) ↦
              rw (apply_linked, linked, e)
                (at_more (n + length d.bids) (n + (length d.bids + length d.asks)) first.state
                  (omega arith) one)
          | inl e ↦ elim (Option-cases second.error) [
            | inr (x, f) ↦ rw (apply_linked, linked, e, f) all
            | inl f ↦ rw (apply_linked, linked, e, f) all
          ]
        ]
      ]

  notify-InStepAt :
      (applied : Step SeqBook) (n : ℕ)
      → InStepAt n applied.state
      → InStepAt n (notify p applied).state
  unfolding notify
  notify-InStepAt applied n h = elim (Option-cases applied.error) [
    | inr (x, e) ↦ rw (notify, e) h
    | inl e ↦ rw (notify, e) h
  ]

  pub apply_frame-InStepAt :
      (inst_id : Bytes) (is_snapshot : Bool) (ts_exchange ts_received : Time) (d : BookData)
      (sb : SeqBook) (n : ℕ)
      → InStepAt n sb
      → n + row_load d + 2 < u64_mod
      → InStepAt
          (n + row_load d)
          (apply_frame p inst_id is_snapshot ts_exchange ts_received d sb).state
  unfolding apply_frame
  apply_frame-InStepAt inst_id true t0 t1 d sb n h fits =
      let applied = apply_seed p (frame_header inst_id t0 t1) d sb in
      notify-InStepAt applied (n + row_load d) (
        at_more (n + 1) (n + row_load d) applied.state (omega arith)
          (apply_seed-InStepAt (frame_header inst_id t0 t1) d sb n h (omega arith)))
  apply_frame-InStepAt inst_id false t0 t1 d sb n h fits =
      let applied = apply_linked p (frame_template inst_id t0 t1) d sb in
      notify-InStepAt applied (n + row_load d) (
        at_more (n + (length d.bids + length d.asks)) (n + row_load d) applied.state (omega arith)
          (apply_linked-InStepAt (frame_template inst_id t0 t1) d sb n h (omega arith)))
