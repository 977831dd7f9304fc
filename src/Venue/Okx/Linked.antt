-- ===== src/Venue/Okx/Linked.antt =====
-- The sequence linkage of the book feed in internal/venue/okx/book.go.
use mathlib.Core.Bool.{true≢false}
use tickstore.Prelude.{
  Bool, Bool-cases, Bytes, List, Option, Option-cases, Result-cases, [], ap, false, if◌then◌else◌,
  inl, inr, int_beq_iff, none, refl, some, subst, sym, true, ℤ, ◌++◌, ◌∙◌, ◌∷◌, ◌≡◌,
}
use tickstore.Norm.{BookSnapshot, BookUpdate, Level, Time, buy, sell}
use tickstore.Book.{apply, incr64}
use tickstore.Venue.Feed.{Ports}
use tickstore.Venue.Okx.Books.{
  BookData, SeqBook, Step, apply_changes, apply_frame, apply_linked, apply_seed, contiguous,
  frame_header, frame_template, notify, parse_book_levels, push_levels,
}

-- A frame of the feed: whether it is a snapshot, its two times, and its data.
pub record Frame : Type 0 where
  pub is_snapshot : Bool
  pub ts_exchange : Time
  pub ts_received : Time
  pub row : BookData

-- The frames of one instrument, up to the end or to the first error.
unfoldable pub take_frames : Ports → Bytes → List Frame → SeqBook → Step SeqBook
take_frames p inst_id [] sb = record { state = sb; effects = []; error = none }
take_frames p inst_id (f ∷ fs) sb =
    let first = apply_frame p inst_id f.is_snapshot f.ts_exchange f.ts_received f.row sb in
    let rest = take_frames p inst_id fs first.state in
    elim first.error [
      | some e ↦ first
      | none ↦ record rest { effects = first.effects ++ rest.effects }
    ]

-- A snapshot starts a chain anew, and an update names the frame before it.
abbrev pub IsChain : Option ℤ → List Frame → Type 0
IsChain last [] = Unit
IsChain last (f ∷ fs) =
    (f.is_snapshot ≡ false → last ≡ some f.row.prev_seq_id) × IsChain (some f.row.seq_id) fs

-- The number of the frame that a book took last, if it took a snapshot.
abbrev pub last_taken : SeqBook → Option ℤ
last_taken sb = if sb.seeded then some sb.last_seq_id else none

of_contiguous :
    (sb : SeqBook) (prev : ℤ)
    → contiguous sb prev ≡ true
    → (sb.seeded ≡ true) × (prev ≡ sb.last_seq_id)
unfolding contiguous
of_contiguous sb prev h = elim (Bool-cases sb.seeded) [
  | inl e ↦ (e, (int_beq_iff prev sb.last_seq_id).0 (rw e at h))
  | inr e ↦ absurd (true≢false (sym (rw e at h)))
]

module _ (p : Ports) where
  push_levels-kept :
      (template : BookUpdate) (ls : List Level) (sb : SeqBook)
      → ((push_levels p template ls sb).0.last_seq_id ≡ sb.last_seq_id)
        × ((push_levels p template ls sb).0.seeded ≡ sb.seeded)
  unfolding push_levels
  push_levels-kept template [] sb = (refl, refl)
  push_levels-kept template (l ∷ ls) sb = push_levels-kept template ls (record sb {
    book =
        (apply sb.book
          (record template { price = l.price; size = l.size; seq = incr64 sb.engine_seq })).0;
    engine_seq = incr64 sb.engine_seq;
  })

  apply_changes-kept :
      (template : BookUpdate) (rows : List (List Bytes)) (sb : SeqBook)
      → (apply_changes p template rows sb).state.seeded ≡ sb.seeded
  unfolding apply_changes
  apply_changes-kept template rows sb = elim (Result-cases (parse_book_levels rows)) [
    | inl (ls, e) ↦ rw (apply_changes, e) (push_levels-kept template ls sb).1
    | inr (x, e) ↦ rw (apply_changes, e) refl
  ]

  -- What a frame leaves that is taken without an error.
  abbrev IsTaken : BookData → Step SeqBook → Type 0
  IsTaken d out = (out.state.seeded ≡ true) × (out.state.last_seq_id ≡ d.seq_id)

  apply_seed-IsTaken :
      (header : BookSnapshot) (d : BookData) (sb : SeqBook)
      → (apply_seed p header d sb).error ≡ none
      → IsTaken d (apply_seed p header d sb)
  unfolding apply_seed
  apply_seed-IsTaken header d sb = elim (Result-cases (parse_book_levels d.bids)) [
    | inl (bids, e) ↦ elim (Result-cases (parse_book_levels d.asks)) [
      | inl (asks, f) ↦ rw (apply_seed, e, f) (λ h. (refl, refl))
      | inr (x, f) ↦ rw (apply_seed, e, f) (λ h. absurd (cc h))
    ]
    | inr (x, e) ↦ rw (apply_seed, e) (λ h. absurd (cc h))
  ]

  apply_linked-IsTaken :
      (template : BookUpdate) (d : BookData) (sb : SeqBook)
      → (apply_linked p template d sb).error ≡ none
      → IsTaken d (apply_linked p template d sb) × (contiguous sb d.prev_seq_id ≡ true)
  unfolding apply_linked contiguous
  apply_linked-IsTaken template d sb =
      let first = apply_changes p (record template { side = buy }) d.bids sb in
      let second = apply_changes p (record template { side = sell }) d.asks first.state in
      elim (Bool-cases (contiguous sb d.prev_seq_id)) [
        | inr broken ↦ rw (apply_linked, broken) (λ h. absurd (cc h))
        | inl linked ↦ elim (Option-cases first.error) [
          | inr (x, e) ↦ rw (apply_linked, linked, e) (λ h. absurd (cc (e, h)))
          | inl e ↦ elim (Option-cases second.error) [
            | inr (x, f) ↦ rw (apply_linked, linked, e, f) (λ h. absurd (cc (f, h)))
            | inl f ↦
                rw (apply_linked, linked, e, f)
                  (λ h. (
                    (
                      apply_changes-kept (record template { side = sell }) d.asks first.state
                          ∙ apply_changes-kept (record template { side = buy }) d.bids sb
                          ∙ (of_contiguous sb d.prev_seq_id linked).0,
                      refl,
                    ),
                    refl,
                  ))
          ]
        ]
      ]

  notify-none :
      (applied : Step SeqBook)
      → (notify p applied).error ≡ none
      → (applied.error ≡ none) × ((notify p applied).state ≡ applied.state)
  unfolding notify
  notify-none applied = elim (Option-cases applied.error) [
    | inl e ↦ rw (notify, e) (λ h. (refl, refl))
    | inr (x, e) ↦ rw (notify, e) (λ h. absurd (cc (e, h)))
  ]

  -- A frame that is taken links to the last one, and is the last one afterwards.
  apply_frame-IsTaken :
      (inst_id : Bytes) (f : Frame) (sb : SeqBook)
      → let out = apply_frame p inst_id f.is_snapshot f.ts_exchange f.ts_received f.row sb in
        out.error ≡ none
        → (f.is_snapshot ≡ false → last_taken sb ≡ some f.row.prev_seq_id)
          × (last_taken out.state ≡ some f.row.seq_id)
  unfolding apply_frame
  apply_frame-IsTaken inst_id f sb h = elim (Bool-cases f.is_snapshot) [
    | inl e ↦
        let applied = apply_seed p (frame_header inst_id f.ts_exchange f.ts_received) f.row sb in
        let (good, same) = notify-none applied (rw e at h) in
        let (seeded, last) =
          apply_seed-IsTaken (frame_header inst_id f.ts_exchange f.ts_received) f.row sb good in
        (λ no. absurd (true≢false (sym e ∙ no)), rw e (rw (same, seeded) (ap some last)))
    | inr e ↦
        let applied =
          apply_linked p (frame_template inst_id f.ts_exchange f.ts_received) f.row sb in
        let (good, same) = notify-none applied (rw e at h) in
        let ((seeded, last), linked) =
          apply_linked-IsTaken (frame_template inst_id f.ts_exchange f.ts_received) f.row sb good in
        let (was, prev) = of_contiguous sb f.row.prev_seq_id linked in
        (λ no. rw was (ap some (sym prev)), rw e (rw (same, seeded) (ap some last)))
  ]

-- Frames of an instrument that are taken without an error form a chain: each update among them names,
-- as the one before it, exactly the frame that the book took last, and there is no update before the
-- first snapshot.
pub take_frames-IsChain :
    (p : Ports) (inst_id : Bytes) (fs : List Frame) (sb : SeqBook)
    → (take_frames p inst_id fs sb).error ≡ none
    → IsChain (last_taken sb) fs
unfolding take_frames
take_frames-IsChain p inst_id [] sb h = tt
take_frames-IsChain p inst_id (f ∷ fs) sb h =
    let first = apply_frame p inst_id f.is_snapshot f.ts_exchange f.ts_received f.row sb in
    elim (Option-cases first.error) [
      | inl e ↦
          let (linked, last) = apply_frame-IsTaken p inst_id f sb e in
          (
            linked,
            subst (λ l. IsChain l fs) last
                (take_frames-IsChain p inst_id fs first.state (rw (take_frames, e) at h)),
          )
      | inr (x, e) ↦ absurd (cc (e, rw (take_frames, e) at h))
    ]
