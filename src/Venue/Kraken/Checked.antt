-- ===== src/Venue/Kraken/Checked.antt =====
-- The checksum of a frame in internal/venue/kraken/book.go, and what the observer is shown.
use tickstore.Prelude.{
  All, Bool, Bool-cases, List, Option, Option-cases, [], ap, append-nil, bytes_eq, false,
  if◌then◌else◌, inl, inr, int_eq, nat_beq_iff, nat_eq, none, pos, refl, some, sym, true, ℕ, ◌++◌,
  ◌==◌, ◌∙◌, ◌∷◌, ◌≡◌, ◌⊎◌,
}
use tickstore.Book.{Book}
use tickstore.Venue.Feed.{Effect, Ports, count_gap, count_resync, observe}
use tickstore.Venue.Kraken.Checksum.{book_checksum}
use tickstore.Book.Views.{depth}
use tickstore.Norm.{Time}
use tickstore.Venue.Published.{
  IsStored, gaps_counted, gaps_counted-observe, gaps_counted-stored, observations,
  observations-observe, observations-stored,
}
use tickstore.Venue.Kraken.Books.{
  BookDataWire, BookError, Precision, SeqBook, Step, apply_both, apply_frame, apply_seed,
  checksum_mismatch, finish, frame_header, frame_template, index_panic, trim_book, validate,
}
use tickstore.Venue.Kraken.Stored.{apply_seed-IsStored, apply_both-IsStored}
use tickstore.Venue.Kraken.Quiet.{mismatches, IsQuiet, apply_seed-IsQuiet, apply_both-IsQuiet}

-- The book's checksum is the one sent, where the instrument's precision is known.
abbrev pub IsVerified : Option Precision → ℕ → Book → Type 0
IsVerified none want b = Unit
IsVerified (some prec) want b =
    book_checksum (depth b (pos 10)).0 (depth b (pos 10)).1 prec.price prec.qty ≡ some want

-- The step ends well: the book is verified, and the observer gets it, once.
abbrev pub IsPublished : Ports → Option Precision → ℕ → Step SeqBook → Type 0
IsPublished p prec want out =
    (out.error ≡ none)
    × IsVerified prec want out.state.book
    × (observations out.effects ≡ (if p.has_observer then out.state.book ∷ [] else []))
    × (gaps_counted out.effects ≡ 0)

-- The step fails: the observer gets nothing, and a gap is counted for a wrong checksum only.
abbrev pub IsWithheld : Step SeqBook → Type 0
IsWithheld out =
    (e : BookError) × (out.error ≡ some e)
    × (observations out.effects ≡ [])
    × (gaps_counted out.effects ≡ mismatches e)

module _ (p : Ports) where
  -- What `validate` adds to effects that only store rows.
  validate_lem :
      (prec : Option Precision) (want : ℕ) (sb : SeqBook) (es : List Effect)
      → All IsStored es
      → let checked = validate p prec want sb in
        let out : Step SeqBook = record checked { effects = es ++ checked.effects } in
        IsPublished p prec want out ⊎ IsWithheld out
  unfolding validate observations gaps_counted
  validate_lem none want sb es h = inl (
    refl,
    tt,
    observations-stored es (observe p sb.book) h ∙ observations-observe p sb.book,
    gaps_counted-stored es (observe p sb.book) h ∙ gaps_counted-observe p sb.book,
  )
  validate_lem (some prec) want sb es h =
      let sides = depth sb.book (pos 10) in
      elim (Option-cases (book_checksum sides.0 sides.1 prec.price prec.qty)) [
        | inl e ↦
            rw (validate, e)
              (inr (
                index_panic,
                refl,
                observations-stored es [] h ∙ unfold observations in refl,
                gaps_counted-stored es [] h ∙ unfold gaps_counted in refl,
              ))
        | inr (got, e) ↦ elim (Bool-cases (got == want)) [
          | inl f ↦
              rw (validate, e, f)
                (inl (
                  refl,
                  rw e (ap some ((nat_beq_iff got want).0 f)),
                  observations-stored es (observe p sb.book) h ∙ observations-observe p sb.book,
                  gaps_counted-stored es (observe p sb.book) h ∙ gaps_counted-observe p sb.book,
                ))
          | inr f ↦
              rw (validate, e, f)
                (inr (
                  checksum_mismatch,
                  refl,
                  observations-stored es (count_gap ∷ count_resync ∷ []) h
                      ∙ unfold observations in refl,
                  gaps_counted-stored es (count_gap ∷ count_resync ∷ []) h
                      ∙ unfold gaps_counted in refl,
                ))
        ]
      ]

  finish-checked :
      (prec : Option Precision) (want : ℕ) (applied : Step SeqBook)
      → All IsStored applied.effects
      → IsQuiet applied.error
      → IsPublished p prec want (finish p prec want applied)
        ⊎ IsWithheld (finish p prec want applied)
  unfolding finish
  finish-checked prec want applied h quiet = elim (Option-cases applied.error) [
    | inl e ↦ rw (finish, e) (validate_lem prec want (trim_book p applied.state) applied.effects h)
    | inr (x, e) ↦
        rw (finish, e)
          (inr (
            x,
            e,
            rw (append-nil applied.effects) at (observations-stored applied.effects [] h)
                ∙ unfold observations in refl,
            rw (append-nil applied.effects) at (gaps_counted-stored applied.effects [] h)
                ∙ unfold gaps_counted in sym (rw e at quiet),
          ))
  ]

  -- A frame either ends without an error: then the observer, where one is set, is shown its book once,
  -- no gap is counted, and where the precision is known the book's checksum is the one sent; or it ends
  -- with an error: then the observer is shown nothing, and a gap is counted exactly for a wrong checksum.
  pub apply_frame-checked :
      (is_snapshot : Bool) (prec : Option Precision) (ts_exchange ts_received : Time)
      (d : BookDataWire) (sb : SeqBook)
      → let out = apply_frame p is_snapshot prec ts_exchange ts_received d sb in
        IsPublished p prec d.checksum out ⊎ IsWithheld out
  unfolding apply_frame
  apply_frame-checked true prec t0 t1 d sb =
      finish-checked prec d.checksum (apply_seed p (frame_header d.symbol t0 t1) d sb)
        (apply_seed-IsStored p (frame_header d.symbol t0 t1) d sb)
        (apply_seed-IsQuiet p (frame_header d.symbol t0 t1) d sb)
  apply_frame-checked false prec t0 t1 d sb =
      finish-checked prec d.checksum (apply_both p (frame_template d.symbol t0 t1) d sb)
        (apply_both-IsStored p (frame_template d.symbol t0 t1) d sb)
        (apply_both-IsQuiet p (frame_template d.symbol t0 t1) d sb)
