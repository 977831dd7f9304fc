-- ===== src/Venue/Kraken/Numbers.antt =====
-- Lemmas about the numbers that the book feed of internal/venue/kraken/book.go gives to its
-- updates.
use tickstore.Prelude.{
  Bool, Bool-cases, List, Option, Option-cases, Result-cases, [], arith, bytes_eq, false, inl, inr,
  int_eq, length, nat_eq, none, pos, refl, some, suc, true, u64_mod, ℕ, ◌+◌, ◌<◌, ◌==◌, ◌∷◌, ◌≡◌,
  ◌≤◌,
}
use tickstore.Norm.{BookSnapshot, BookUpdate, Time, buy, sell}
use tickstore.Book.{incr64}
use tickstore.Book.Views.{depth}
use tickstore.Venue.Kraken.Checksum.{book_checksum}
use tickstore.Book.Numbered.{trim-Numbered}
use tickstore.Venue.InStep.{InStepBelow, below_more, apply_next-Numbered, snapshot_next-Numbered}
use tickstore.Venue.Feed.{Ports}
use tickstore.Venue.Kraken.Books.{
  BookDataWire, BookLevelWire, Precision, SeqBook, Step, apply_both, apply_changes, apply_frame,
  apply_seed, book_depth, finish, frame_header, frame_template, parse_book_levels, parse_level,
  push, trim_book, validate,
}

-- A book that stands at the number given last, which is at most `n`.
abbrev pub InStepAt : ℕ → SeqBook → Type 0
InStepAt = InStepBelow (λ (sb : SeqBook). sb.book) (λ sb. sb.seq)

pub at_more : (m n : ℕ) (sb : SeqBook) → m ≤ n → InStepAt m sb → InStepAt n sb
at_more = below_more (λ (sb : SeqBook). sb.book) (λ sb. sb.seq)

-- The numbers that a row of a frame takes at most.
abbrev pub row_load : BookDataWire → ℕ
row_load d = 1 + (length d.bids + length d.asks)

unfoldable pub rows_load : List BookDataWire → ℕ
rows_load [] = 0
rows_load (d ∷ ds) = row_load d + rows_load ds

module _ (p : Ports) where
  push-InStepAt :
      (sb : SeqBook) (u : BookUpdate) (n : ℕ)
      → InStepAt n sb
      → n + 2 < u64_mod
      → InStepAt (n + 1) (push p sb u).0
  unfolding push
  push-InStepAt sb u n h fits =
      apply_next-Numbered sb.book sb.seq n (record u { seq = incr64 sb.seq }) h.0 h.1 fits refl

  apply_changes-InStepAt :
      (template : BookUpdate) (ws : List BookLevelWire) (sb : SeqBook) (n : ℕ)
      → InStepAt n sb
      → n + length ws + 2 < u64_mod
      → InStepAt (n + length ws) (apply_changes p template ws sb).state
  unfolding apply_changes
  apply_changes-InStepAt template [] sb n h fits = at_more n (n + 0) sb (omega arith) h
  apply_changes-InStepAt template (w ∷ ws) sb n h fits = elim (Result-cases (parse_level w)) [
    | inr (x, e) ↦ rw (apply_changes, e) (at_more n (n + suc (length ws)) sb (omega arith) h)
    | inl (l, e) ↦
        let v = record template { price = l.price; size = l.size } in
        let rest =
          apply_changes-InStepAt template ws (push p sb v).0 (n + 1)
            (push-InStepAt sb v n h (omega arith)) (omega arith) in
        rw (apply_changes, e)
          (at_more (n + 1 + length ws) (n + suc (length ws))
            (apply_changes p template ws (push p sb v).0).state (omega arith) rest)
  ]

  apply_seed-InStepAt :
      (header : BookSnapshot) (d : BookDataWire) (sb : SeqBook) (n : ℕ)
      → InStepAt n sb
      → n + 2 < u64_mod
      → InStepAt (n + 1) (apply_seed p header d sb).state
  unfolding apply_seed
  apply_seed-InStepAt header d sb n h fits = elim (Result-cases (parse_book_levels d.bids)) [
    | inr (x, e) ↦ rw (apply_seed, e) (at_more n (n + 1) sb (omega arith) h)
    | inl (bids, e) ↦ elim (Result-cases (parse_book_levels d.asks)) [
      | inr (x, f) ↦ rw (apply_seed, e, f) (at_more n (n + 1) sb (omega arith) h)
      | inl (asks, f) ↦
          let snap = record header { bids = bids; asks = asks; seq = incr64 sb.seq } in
          rw (apply_seed, e, f) (snapshot_next-Numbered sb.book sb.seq n snap h.0 h.1 fits refl)
    ]
  ]

  apply_both-InStepAt :
      (template : BookUpdate) (d : BookDataWire) (sb : SeqBook) (n : ℕ)
      → InStepAt n sb
      → n + (length d.bids + length d.asks) + 2 < u64_mod
      → InStepAt (n + (length d.bids + length d.asks)) (apply_both p template d sb).state
  unfolding apply_both
  apply_both-InStepAt template d sb n h fits =
      let first = apply_changes p (record template { side = buy }) d.bids sb in
      let second = apply_changes p (record template { side = sell }) d.asks first.state in
      let one =
        apply_changes-InStepAt (record template { side = buy }) d.bids sb n h (omega arith) in
      let two =
        apply_changes-InStepAt (record template { side = sell }) d.asks first.state
          (n + length d.bids) one (omega arith) in
      elim (Option-cases first.error) [
        | inr (x, e) ↦
            rw (apply_both, e)
              (at_more (n + length d.bids) (n + (length d.bids + length d.asks)) first.state
                (omega arith) one)
        | inl e ↦
            rw (apply_both, e)
              (at_more (n + length d.bids + length d.asks) (n + (length d.bids + length d.asks))
                second.state (omega arith) two)
      ]

  validate_state :
      (prec : Option Precision) (want : ℕ) (sb : SeqBook) → (validate p prec want sb).state ≡ sb
  unfolding validate
  validate_state none want sb = refl
  validate_state (some prec) want sb =
      let sides = depth sb.book (pos 10) in
      elim (Option-cases (book_checksum sides.0 sides.1 prec.price prec.qty)) [
        | inl e ↦ rw (validate, e) refl
        | inr (got, e) ↦ elim (Bool-cases (got == want)) [
          | inl f ↦ rw (validate, e, f) refl
          | inr f ↦ rw (validate, e, f) refl
        ]
      ]

  finish-InStepAt :
      (prec : Option Precision) (want : ℕ) (applied : Step SeqBook) (n : ℕ)
      → InStepAt n applied.state
      → InStepAt n (finish p prec want applied).state
  unfolding finish
  finish-InStepAt prec want applied n h = elim (Option-cases applied.error) [
    | inr (x, e) ↦ rw (finish, e) h
    | inl e ↦
        rw (finish, e, validate_state prec want (trim_book p applied.state))
          (trim-Numbered applied.state.book applied.state.seq book_depth h.0, h.1)
  ]

  pub apply_frame-InStepAt :
      (is_snapshot : Bool) (prec : Option Precision) (ts_exchange ts_received : Time)
      (d : BookDataWire) (sb : SeqBook) (n : ℕ)
      → InStepAt n sb
      → n + row_load d + 2 < u64_mod
      → InStepAt
          (n + row_load d)
          (apply_frame p is_snapshot prec ts_exchange ts_received d sb).state
  unfolding apply_frame
  apply_frame-InStepAt true prec t0 t1 d sb n h fits =
      let applied = apply_seed p (frame_header d.symbol t0 t1) d sb in
      finish-InStepAt prec d.checksum applied (n + row_load d) (
        at_more (n + 1) (n + row_load d) applied.state (omega arith)
          (apply_seed-InStepAt (frame_header d.symbol t0 t1) d sb n h (omega arith)))
  apply_frame-InStepAt false prec t0 t1 d sb n h fits =
      let applied = apply_both p (frame_template d.symbol t0 t1) d sb in
      finish-InStepAt prec d.checksum applied (n + row_load d) (
        at_more (n + (length d.bids + length d.asks)) (n + row_load d) applied.state (omega arith)
          (apply_both-InStepAt (frame_template d.symbol t0 t1) d sb n h (omega arith)))
