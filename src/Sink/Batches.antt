-- ===== src/Sink/Batches.antt =====
-- The batches that the run loop of internal/sink/batcher.go forms.
use mathlib.Core.Bool.{true≢false}
use tickstore.Prelude.{
  All, List, [], ap, append-nil, append_assoc, arith, false, pos_part, refl, sym, true, ℕ, ◌++◌,
  ◌<◌, ◌∙◌, ◌∷◌, ◌≡◌,
}
use tickstore.Sink.{
  Attempt, Batcher, Config, Event, add_row, drain, flush, is_idle, row, run, start, step, stop,
  tick,
}
use tickstore.Sink.Flushing.{
  AllReturn, IsBatch, IsLive, add_row-IsLive, add_row-rows, drain_lem, flush-IsLive, flush-rows,
  rows_flushed, rows_held, start-IsLive,
}

-- The rows that the events brought, up to the stop that ended the loop.
unfoldable pub rows_sent {ℓ} : {A : Type ℓ} → List (Event A) → List A
rows_sent [] = []
rows_sent (row v ∷ es) = v ∷ rows_sent es
rows_sent (tick ∷ es) = rows_sent es
rows_sent (stop queued ∷ es) = queued

module _ {ℓ} {A : Type ℓ} (cfg : Config) (attempts : ℕ → List Attempt) where
  run-go :
      (b : Batcher A) (e : Event A) (es : List (Event A))
      → is_idle b ≡ false
      → run cfg attempts b (e ∷ es) ≡ run cfg attempts (step cfg attempts b e) es
  unfolding run
  run-go b e es h = simp h refl

  run_none : (b : Batcher A) → run cfg attempts b [] ≡ b
  unfolding run
  run_none b = refl

  run_idle : (b : Batcher A) (es : List (Event A)) → is_idle b ≡ true → run cfg attempts b es ≡ b
  unfolding run
  run_idle b [] h = refl
  run_idle b (e ∷ es) h = simp h refl

module _ {ℓ} {A : Type ℓ} (cfg : Config) (attempts : ℕ → List Attempt)
    (back : AllReturn cfg attempts) where
  run_lem :
      (b : Batcher A) (es : List (Event A))
      → 0 < pos_part cfg.max_rows
      → IsLive (pos_part cfg.max_rows) b
      → (rows_held (run cfg attempts b es) ≡ rows_held b ++ rows_sent es)
        × All (IsBatch (pos_part cfg.max_rows)) (run cfg attempts b es).flushed
        × ((run cfg attempts b es).done ≡ true → (run cfg attempts b es).buf ≡ [])
  unfolding step rows_sent
  run_lem b [] h live =
      rw (run_none cfg attempts b) (
        sym (append-nil (rows_held b)),
        live.sized,
        λ e. absurd (true≢false (sym e ∙ live.running)),
      )
  run_lem b (row v ∷ es) h live =
      let next = add_row-IsLive cfg attempts back b v h live in
      let (rows, sized, ended) = run_lem (add_row cfg attempts b v) es h next in
      rw (run-go cfg attempts b (row v) es (rw (live.running, live.returned) refl)) (
        rows
            ∙ ap (λ t. t ++ rows_sent es) (add_row-rows cfg attempts b v)
            ∙ append_assoc (rows_held b) (v ∷ []) (rows_sent es),
        sized,
        ended,
      )
  run_lem b (tick ∷ es) h live =
      let next =
        (flush-IsLive cfg attempts back (pos_part cfg.max_rows) b h live.running live.returned
          live.sized (omega (arith, live.room))).0 in
      let (rows, sized, ended) = run_lem (flush cfg attempts b) es h next in
      rw (run-go cfg attempts b tick es (rw (live.running, live.returned) refl))
        (rows ∙ ap (λ t. t ++ rows_sent es) (flush-rows cfg attempts b), sized, ended)
  run_lem b (stop queued ∷ es) h live =
      let (done, empty, sized, rows) = drain_lem cfg attempts back b queued h live in
      rw
        (
          run-go cfg attempts b (stop queued) es (rw (live.running, live.returned) refl),
          run_idle cfg attempts (drain cfg attempts b queued) es (rw done refl),
        )
        (rows, sized, λ e. empty)

-- A loop whose flushes come back hands every row that it receives, once and in the order received, to
-- a batch or keeps it in the buffer; each batch holds at least one row and at most `max_rows`; and a
-- loop that has returned left nothing in the buffer.
pub run-conserves {ℓ} :
    {A : Type ℓ} (cfg : Config) (attempts : ℕ → List Attempt) (es : List (Event A))
    → AllReturn cfg attempts
    → 0 < pos_part cfg.max_rows
    → (rows_held (run cfg attempts start es) ≡ rows_sent es)
      × All (IsBatch (pos_part cfg.max_rows)) (run cfg attempts start es).flushed
      × ((run cfg attempts start es).done ≡ true → (run cfg attempts start es).buf ≡ [])
run-conserves cfg attempts es back h =
    let (rows, sized, ended) =
      run_lem cfg attempts back start es h (start-IsLive cfg attempts back h) in
    (rows ∙ unfold start rows_flushed in refl, sized, ended)
