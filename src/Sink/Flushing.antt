-- ===== src/Sink/Flushing.antt =====
-- Lemmas about a flush, a row and the final drain of internal/sink/batcher.go.
use tickstore.Prelude.{
  All, All-append, Bool-cases, List, [], ap, append-nil, append_assoc, arith, false, inl, inr, leb,
  length, length-append, pos_part, refl, sym, true, ℕ, ◌++◌, ◌+◌, ◌<◌, ◌∙◌, ◌∷◌, ◌≡◌, ◌≤◌,
}
use tickstore.Sink.{
  Attempt, Batcher, Config, Outcome, add_row, drain, flush, is_hung, outcome, start,
}

-- The rows of the batches, in the order of the flushes.
unfoldable pub rows_flushed {ℓ} : {A : Type ℓ} → List (List A × Outcome) → List A
rows_flushed [] = []
rows_flushed ((batch, end) ∷ rest) = batch ++ rows_flushed rest

rows_flushed-append {ℓ} :
    {A : Type ℓ} (xs ys : List (List A × Outcome))
    → rows_flushed (xs ++ ys) ≡ rows_flushed xs ++ rows_flushed ys
unfolding rows_flushed
rows_flushed-append [] ys = refl
rows_flushed-append ((batch, end) ∷ rest) ys =
    ap (λ t. batch ++ t) (rows_flushed-append rest ys)
    ∙ sym (append_assoc batch (rows_flushed rest) (rows_flushed ys))

-- All rows of the loop.
abbrev pub rows_held {ℓ} : {A : Type ℓ} → Batcher A → List A
rows_held b = rows_flushed b.flushed ++ b.buf

module _ {ℓ} {A : Type ℓ} (cfg : Config) (attempts : ℕ → List Attempt) where
  flush_none : (b : Batcher A) → b.buf ≡ [] → flush cfg attempts b ≡ b
  unfolding flush
  flush_none b e = rw (flush, e) (ap (λ xs. record b { buf = xs }) e)

  pub flush-rows : (b : Batcher A) → rows_held (flush cfg attempts b) ≡ rows_held b
  unfolding flush rows_flushed
  flush-rows b = cases b.buf refl
    where
      cases : (xs : List A) → b.buf ≡ xs → rows_held (flush cfg attempts b) ≡ rows_held b
      cases [] e = rw e refl
      cases (x ∷ xs) e =
          let end = outcome cfg (attempts (length b.flushed)) in
          elim (Bool-cases (is_hung end)) [
            | inl h ↦ rw (e, h) refl
            | inr h ↦
                rw
                  (
                    e,
                    h,
                    rows_flushed-append b.flushed ((x ∷ xs, end) ∷ []),
                    append-nil (rows_flushed b.flushed ++ (x ∷ xs ++ [])),
                    append-nil xs,
                  )
                  refl
          ]

  pub add_row-rows :
      (b : Batcher A) (v : A) → rows_held (add_row cfg attempts b v) ≡ rows_held b ++ v ∷ []
  unfolding add_row
  add_row-rows b v =
      let fuller : Batcher A = record b { buf = b.buf ++ v ∷ [] } in
      let e : rows_held fuller ≡ rows_held b ++ v ∷ [] =
        sym (append_assoc (rows_flushed b.flushed) b.buf (v ∷ [])) in
      elim (Bool-cases (leb (pos_part cfg.max_rows) (length fuller.buf))) [
        | inl full ↦ rw full (flush-rows fuller ∙ e)
        | inr room ↦ rw room e
      ]

-- Every flush comes back: its insert lands, or it is given up at a cancellation.
abbrev pub AllReturn : Config → (ℕ → List Attempt) → Type 0
AllReturn cfg attempts = (n : ℕ) → is_hung (outcome cfg (attempts n)) ≡ false

-- The size of a batch.
abbrev pub IsBatch {ℓ} : {A : Type ℓ} → ℕ → List A × Outcome → Type 0
IsBatch limit batch = (0 < length batch.0) × (length batch.0 ≤ limit)

-- A loop that goes on: its batches have their size, and the next one has room.
pub record IsLive {ℓ} {A : Type ℓ} (limit : ℕ) (b : Batcher A) : Type ℓ where
  pub running : b.done ≡ false
  pub returned : b.hung ≡ false
  pub sized : All (IsBatch limit) b.flushed
  pub room : length b.buf < limit

module _ {ℓ} {A : Type ℓ} (cfg : Config) (attempts : ℕ → List Attempt)
    (back : AllReturn cfg attempts) where
  -- A flush of a buffer that is not too large.
  pub flush-IsLive :
      (limit : ℕ) (b : Batcher A)
      → 0 < limit
      → b.done ≡ false
      → b.hung ≡ false
      → All (IsBatch limit) b.flushed
      → length b.buf ≤ limit
      → IsLive limit (flush cfg attempts b) × ((flush cfg attempts b).buf ≡ [])
  unfolding flush
  flush-IsLive limit b h running returned sized small = cases b.buf refl
    where
      cases :
          (xs : List A)
          → b.buf ≡ xs
          → IsLive limit (flush cfg attempts b) × ((flush cfg attempts b).buf ≡ [])
      cases [] e =
          rw (flush_none cfg attempts b e)
            (record { running = running; returned = returned; sized = sized; room = rw e h }, e)
      cases (x ∷ xs) e =
          rw (e, back (length b.flushed))
            (
              record {
                running = running;
                returned = returned;
                sized =
                    All-append (IsBatch limit) b.flushed
                      ((x ∷ xs, outcome cfg (attempts (length b.flushed))) ∷ []) sized
                      ((omega arith, rw e at small), tt);
                room = h;
              },
              refl,
            )

  pub add_row-IsLive :
      (b : Batcher A) (v : A)
      → 0 < pos_part cfg.max_rows
      → IsLive (pos_part cfg.max_rows) b
      → IsLive (pos_part cfg.max_rows) (add_row cfg attempts b v)
  unfolding add_row
  add_row-IsLive b v h live =
      let fuller : Batcher A = record b { buf = b.buf ++ v ∷ [] } in
      let size : length fuller.buf ≡ length b.buf + 1 = length-append b.buf (v ∷ []) in
      elim (Bool-cases (leb (pos_part cfg.max_rows) (length fuller.buf))) [
        | inl full ↦
            rw full
              (flush-IsLive (pos_part cfg.max_rows) fuller h live.running live.returned live.sized
                (omega (arith, size, live.room))).0
        | inr room ↦ rw room (record {
          running = live.running;
          returned = live.returned;
          sized = live.sized;
          room = ground (arith, room);
        })
      ]

  -- After a stop: the rows that were queued are in, and nothing is left.
  pub drain_lem :
      (b : Batcher A) (queued : List A)
      → 0 < pos_part cfg.max_rows
      → IsLive (pos_part cfg.max_rows) b
      → ((drain cfg attempts b queued).done ≡ true)
        × ((drain cfg attempts b queued).buf ≡ [])
        × All (IsBatch (pos_part cfg.max_rows)) (drain cfg attempts b queued).flushed
        × (rows_held (drain cfg attempts b queued) ≡ rows_held b ++ queued)
  unfolding drain
  drain_lem b [] h live =
      let (next, empty) =
        flush-IsLive (pos_part cfg.max_rows) b h live.running live.returned live.sized
          (omega (arith, live.room)) in
      rw (next.returned)
        (refl, empty, next.sized, flush-rows cfg attempts b ∙ sym (append-nil (rows_held b)))
  drain_lem b (v ∷ vs) h live =
      let next = add_row-IsLive b v h live in
      let (done, empty, sized, rows) = drain_lem (add_row cfg attempts b v) vs h next in
      rw (next.returned) (
        done,
        empty,
        sized,
        rows
            ∙ ap (λ t. t ++ vs) (add_row-rows cfg attempts b v)
            ∙ append_assoc (rows_held b) (v ∷ []) vs,
      )

  pub start-IsLive : 0 < pos_part cfg.max_rows → IsLive (pos_part cfg.max_rows) (start {A = A})
  unfolding start
  start-IsLive h = record { running = refl; returned = refl; sized = tt; room = h }
