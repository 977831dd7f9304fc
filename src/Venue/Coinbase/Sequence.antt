-- ===== src/Venue/Coinbase/Sequence.antt =====
-- The numbers that the book feed of internal/venue/coinbase/book.go gives to its updates.
use tickstore.Prelude.{
  AllValues, Bytes, List, [], arith, bytes_eq, if◌then◌else◌, insert-AllValues, int_eq, length,
  lookup, nat_eq, refl, subst, sym, true, u64_mod, ℕ, ◌+◌, ◌<◌, ◌∙◌, ◌∷◌, ◌≡◌, ◌≤◌,
}
use tickstore.Norm.{BookSnapshot, BookUpdate}
use tickstore.Book.{apply, incr64}
use tickstore.Book.Steps.{after_delta, apply_delta_fields, incr64_next}
use tickstore.Book.Resync.{reference}
use tickstore.Book.Numbered.{
  Numbered, apply-Numbered, apply-Numbered_step, new-Numbered, snapshot-Numbered,
}
use tickstore.Venue.InStep.{InStepBelow, all_below_more, found_below}
use tickstore.Venue.Feed.{Effect, Ports, stored}
use tickstore.Venue.Coinbase.{name}
use tickstore.Venue.Coinbase.Books.{
  Books, Level2Frame, SeqBook, book_or_new, dispatch, empty_frame, push_updates, reseed, seed_frame,
  update_frame,
}

-- The updates under the numbers behind `n`.
unfoldable pub number_from : ℕ → List BookUpdate → List BookUpdate
number_from n [] = []
number_from n (u ∷ us) = record u { seq = n + 1 } ∷ number_from (n + 1) us

-- The updates that a sink was handed.
unfoldable pub stored_all : List BookUpdate → List Effect
stored_all [] = []
stored_all (u ∷ us) = stored u ∷ stored_all us

abbrev pub InStep : SeqBook → Type 0
InStep sb = Numbered sb.book sb.seq

module _ (p : Ports) where
  pub push_updates-InStep :
      (us : List BookUpdate) (sb : SeqBook)
      → InStep sb
      → sb.seq + length us < u64_mod
      → InStep (push_updates p us sb).0 × ((push_updates p us sb).0.seq ≡ sb.seq + length us)
  unfolding push_updates
  push_updates-InStep [] sb h fits = (h, omega arith)
  push_updates-InStep (u ∷ us) sb h fits =
      let e : incr64 sb.seq ≡ sb.seq + 1 = incr64_next sb.seq (omega arith) in
      let v = record u { seq = incr64 sb.seq } in
      let next : Numbered (apply sb.book v).0 (incr64 sb.seq) =
        subst (Numbered (apply sb.book v).0) (sym e)
          (apply-Numbered sb.book v sb.seq h (omega arith) e) in
      let (kept, count) =
        push_updates-InStep us (record { book = (apply sb.book v).0; seq = incr64 sb.seq }) next
          (omega (arith, e)) in
      (kept, omega (arith, count, e))

  -- The updates of a frame, on a seeded book: each is applied in order under the next number, and
  -- where a sink is set it is handed exactly these.
  pub push_updates-eq-reference :
      (us : List BookUpdate) (sb : SeqBook)
      → InStep sb
      → sb.book.synced ≡ true
      → sb.seq + length us < u64_mod
      → ((push_updates p us sb).0.book ≡ reference sb.book (number_from sb.seq us))
        × ((push_updates p us sb).1
            ≡ (if p.has_sink then stored_all (number_from sb.seq us) else []))
  unfolding push_updates reference number_from stored_all
  push_updates-eq-reference [] sb h on fits = (refl, ground arith)
  push_updates-eq-reference (u ∷ us) sb h on fits =
      let e : incr64 sb.seq ≡ sb.seq + 1 = incr64_next sb.seq (omega arith) in
      let v = record u { seq = sb.seq + 1 } in
      let step : (apply sb.book v).0 ≡ after_delta sb.book v =
        apply-Numbered_step sb.book v sb.seq h on (omega arith) refl in
      let next : Numbered (after_delta sb.book v) (sb.seq + 1) =
        subst (λ b. Numbered b (sb.seq + 1)) step
          (apply-Numbered sb.book v sb.seq h (omega arith) refl) in
      let ih =
        push_updates-eq-reference us (record { book = after_delta sb.book v; seq = sb.seq + 1 })
          next ((apply_delta_fields sb.book u.side u.price u.size).0 ∙ on) (omega arith) in
      rw (e, step) (ih.0, ground (arith, ih.1))

-- The rows of the frames, a snapshot counted as one.
unfoldable pub load : List Level2Frame → ℕ
load [] = 0
load (seed_frame s ∷ fs) = 1 + load fs
load (update_frame us ∷ fs) = length us + load fs
load (empty_frame ∷ fs) = load fs

unfoldable pub dispatch_all : Ports → Books → List Level2Frame → Books
dispatch_all p books [] = books
dispatch_all p books (f ∷ fs) = dispatch_all p (dispatch p books f).0 fs

-- A book that is in step, at a number of at most `n`.
abbrev InStepAt : ℕ → SeqBook → Type 0
InStepAt = InStepBelow (λ (sb : SeqBook). sb.book) (λ sb. sb.seq)

below_mono :
    (m n : ℕ) (books : Books) → m ≤ n → AllValues (InStepAt m) books → AllValues (InStepAt n) books
below_mono = all_below_more (λ (sb : SeqBook). sb.book) (λ sb. sb.seq)

found_at :
    (n : ℕ) (symbol : Bytes) (books : Books)
    → AllValues (InStepAt n) books
    → InStepAt n (book_or_new symbol (lookup symbol books))
found_at n symbol books a =
    found_below (λ (sb : SeqBook). sb.book) (λ sb. sb.seq) (book_or_new symbol) n symbol books
      (new-Numbered name symbol, omega arith) (λ sb. refl) a

module _ (p : Ports) where
  reseed-InStep :
      (s : BookSnapshot) (sb : SeqBook)
      → InStep sb
      → sb.seq + 2 < u64_mod
      → InStep (reseed p s sb).0 × ((reseed p s sb).0.seq ≡ sb.seq + 1)
  unfolding reseed
  reseed-InStep s sb h fits =
      let e : incr64 sb.seq ≡ sb.seq + 1 = incr64_next sb.seq (omega arith) in
      rw e (snapshot-Numbered sb.book (record s { seq = sb.seq + 1 }) sb.seq h refl fits, refl)

  dispatch-InStep :
      (f : Level2Frame) (books : Books) (n : ℕ)
      → AllValues (InStepAt n) books
      → n + load (f ∷ []) + 2 ≤ u64_mod
      → AllValues (InStepAt (n + load (f ∷ []))) (dispatch p books f).0
  unfolding dispatch load
  dispatch-InStep (seed_frame s) books n a fits =
      let sb = book_or_new s.symbol (lookup s.symbol books) in
      let (h, low) = found_at n s.symbol books a in
      let (kept, count) = reseed-InStep s sb h (omega (arith, low)) in
      insert-AllValues (InStepAt (n + 1)) s.symbol (reseed p s sb).0 books
        (kept, omega (arith, count, low)) (below_mono n (n + 1) books (omega arith) a)
  dispatch-InStep (update_frame []) books n a fits = below_mono n (n + 0) books (omega arith) a
  dispatch-InStep (update_frame (u ∷ us)) books n a fits =
      let sb = book_or_new u.symbol (lookup u.symbol books) in
      let (h, low) = found_at n u.symbol books a in
      let (kept, count) = push_updates-InStep p (u ∷ us) sb h (omega (arith, low)) in
      insert-AllValues (InStepAt (n + (length (u ∷ us) + 0))) u.symbol
        (push_updates p (u ∷ us) sb).0 books (kept, omega (arith, count, low))
        (below_mono n (n + (length (u ∷ us) + 0)) books (omega arith) a)
  dispatch-InStep empty_frame books n a fits = below_mono n (n + 0) books (omega arith) a

  dispatch_all-InStep :
      (fs : List Level2Frame) (books : Books) (n : ℕ)
      → AllValues (InStepAt n) books
      → n + load fs + 2 ≤ u64_mod
      → AllValues (InStepAt (n + load fs)) (dispatch_all p books fs)
  unfolding dispatch_all load
  dispatch_all-InStep [] books n a fits = below_mono n (n + 0) books (omega arith) a
  dispatch_all-InStep (f ∷ fs) books n a fits =
      let split : load (f ∷ fs) ≡ load (f ∷ []) + load fs = load-cons f fs in
      let first = dispatch-InStep f books n a (omega (arith, split)) in
      let rest =
        dispatch_all-InStep fs (dispatch p books f).0 (n + load (f ∷ [])) first
          (omega (arith, split)) in
      below_mono (n + load (f ∷ []) + load fs) (n + load (f ∷ fs))
        (dispatch_all p (dispatch p books f).0 fs) (omega (arith, split)) rest
    where
      load-cons :
          (f : Level2Frame) (fs : List Level2Frame) → load (f ∷ fs) ≡ load (f ∷ []) + load fs
      load-cons (seed_frame s) fs = omega arith
      load-cons (update_frame us) fs = omega arith
      load-cons empty_frame fs = omega arith

  -- Whatever frames a session dispatches (fewer than 2^64 - 1 rows), before or behind a snapshot, no
  -- book ever counts a gap, and a synced book stands at the number that its connector gave last.
  pub dispatch_all-gap_free :
      (fs : List Level2Frame)
      → load fs + 2 ≤ u64_mod
      → AllValues
          (λ sb. (sb.book.gaps ≡ 0) × (sb.book.synced ≡ true → sb.book.last_seq ≡ sb.seq))
          (dispatch_all p [] fs)
  dispatch_all-gap_free fs fits =
      weaken (dispatch_all p [] fs) (dispatch_all-InStep fs [] 0 tt (omega arith))
    where
      weaken :
          (books : Books)
          → AllValues (InStepAt (0 + load fs)) books
          → AllValues
              (λ (sb : SeqBook).
                (sb.book.gaps ≡ 0) × (sb.book.synced ≡ true → sb.book.last_seq ≡ sb.seq))
              books
      weaken [] a = tt
      weaken ((k, sb) ∷ books) a = ((a.0.0.no_gaps, a.0.0.linked), weaken books a.1)
