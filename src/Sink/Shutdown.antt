-- ===== src/Sink/Shutdown.antt =====
-- The states of a batcher of internal/sink/batcher.go that its callers share, and its shutdown.
use tickstore.Prelude.{
  All, List, [], ap, append-nil, false, length, pos_part, refl, sym, true, ℕ, ◌++◌, ◌<◌, ◌∙◌, ◌∷◌,
  ◌≡◌, ◌≤◌,
}
use tickstore.Sink.{Attempt, Config, is_idle}
use tickstore.Sink.Flushing.{AllReturn, IsBatch, add_row-IsLive, drain_lem, rows_flushed, rows_held}
use tickstore.Sink.Service.{
  Move, Moves, Reaches, Service, begin_drain, begins_drain, capacity, close_stop, closes, finish,
  finishes, followed, moves, receive, receives, stays,
}
use tickstore.Sink.Reachable.{Reaches-IsSound, empty_of, IsLive-of_runs, sized_of}

pub Moves-Reaches {ℓ} :
    {A : Type ℓ} (cfg : Config) (attempts : ℕ → List Attempt) {rows : List A} {s t : Service A}
    → Reaches cfg attempts rows s
    → Moves cfg attempts s t
    → Reaches cfg attempts rows t
Moves-Reaches cfg attempts r stays = r
Moves-Reaches cfg attempts r (followed m ms) = Moves-Reaches cfg attempts (moves r m) ms

module _ {ℓ} {A : Type ℓ} (cfg : Config) (attempts : ℕ → List Attempt)
    (back : AllReturn cfg attempts) (h : 0 < pos_part cfg.max_rows) where
  -- The final drain, from the rows that are still in the channel.
  drain-Moves :
      (queue : List A) {rows : List A} {s : Service A}
      → Reaches cfg attempts rows s
      → s.channel ≡ queue
      → s.draining ≡ true
      → s.loop.done ≡ false
      → (t : Service A) × Moves cfg attempts s t × (t.loop.done ≡ true) × (t.channel ≡ [])
  unfolding receive finish
  drain-Moves [] {rows} {s} r e d runs =
      let live =
        IsLive-of_runs (pos_part cfg.max_rows) s.loop runs
          (Reaches-IsSound cfg attempts back h r).phase in
      let idle : is_idle s.loop ≡ false = rw (runs, live.returned) refl in
      let (done, _, _, _) = drain_lem cfg attempts back s.loop [] h live in
      (finish cfg attempts s, followed (finishes s idle d e) stays, done, e)
  drain-Moves (v ∷ rest) {rows} {s} r e d runs =
      let live =
        IsLive-of_runs (pos_part cfg.max_rows) s.loop runs
          (Reaches-IsSound cfg attempts back h r).phase in
      let first : Move cfg attempts s (receive cfg attempts s v rest) =
        receives s v rest (rw (runs, live.returned) refl) e in
      let (t, ms, done, empty) =
        drain-Moves rest (moves r first) refl d
          (add_row-IsLive cfg attempts back s.loop v h live).running in
      (t, followed first ms, done, empty)

-- In every state that callers, ticks, the run loop and Close can bring about while every flush
-- comes back, whether its insert lands or is given up: the rows of the batches, then those of the
-- buffer, then those of the channel are the rows that Add put into the channel, each once and in
-- that order; the channel holds no more than its capacity; no batch is empty or larger than
-- `max_rows`; and the loop returns only once `stop` is closed, with an empty buffer.
pub Reaches-conserves {ℓ} :
    {A : Type ℓ} (cfg : Config) (attempts : ℕ → List Attempt) (rows : List A) (s : Service A)
    → AllReturn cfg attempts
    → 0 < pos_part cfg.max_rows
    → Reaches cfg attempts rows s
    → (rows_held s.loop ++ s.channel ≡ rows)
      × (length s.channel ≤ capacity cfg)
      × All (IsBatch (pos_part cfg.max_rows)) s.loop.flushed
      × (s.loop.done ≡ true → (s.loop.buf ≡ []) × (s.stopping ≡ true))
Reaches-conserves cfg attempts rows s back h r =
    let sound = Reaches-IsSound cfg attempts back h r in
    (
      sound.conserved,
      sound.bounded,
      sized_of (pos_part cfg.max_rows) s.loop sound.phase,
      λ d. (empty_of (pos_part cfg.max_rows) s.loop d sound.phase, sound.closing (sound.ending d)),
    )

-- Let every flush come back, whether its insert lands or is given up. From every state that can come
-- about while the loop has not returned, Close and the run loop can bring the batcher, by themselves,
-- to a state where the loop has returned and every row that Add put into the channel stands, once and
-- in order, in a batch that was handed to `insertWithRetry`.
pub close-Moves {ℓ} :
    {A : Type ℓ} (cfg : Config) (attempts : ℕ → List Attempt) (rows : List A) (s : Service A)
    → AllReturn cfg attempts
    → 0 < pos_part cfg.max_rows
    → Reaches cfg attempts rows s
    → s.loop.done ≡ false
    → (t : Service A) × Moves cfg attempts s t
      × (t.loop.done ≡ true)
      × (rows_flushed t.loop.flushed ≡ rows)
close-Moves cfg attempts rows s back h r runs =
    let live =
      IsLive-of_runs (pos_part cfg.max_rows) s.loop runs
        (Reaches-IsSound cfg attempts back h r).phase in
    let stop_first : Move cfg attempts s (close_stop s) = closes s in
    let then_drain : Move cfg attempts (close_stop s) (begin_drain (close_stop s)) =
      begins_drain (close_stop s) (rw (runs, live.returned) refl) refl in
    let (t, ms, done, drained) =
      drain-Moves cfg attempts back h s.channel (moves (moves r stop_first) then_drain) refl refl
        runs in
    let path : Moves cfg attempts s t = followed stop_first (followed then_drain ms) in
    let sound = Reaches-IsSound cfg attempts back h (Moves-Reaches cfg attempts r path) in
    let empty = empty_of (pos_part cfg.max_rows) t.loop done sound.phase in
    (
      t,
      path,
      done,
      sym (append-nil (rows_flushed t.loop.flushed))
          ∙ ap (λ q. rows_flushed t.loop.flushed ++ q) (sym empty)
          ∙ sym (append-nil (rows_held t.loop))
          ∙ ap (λ q. rows_held t.loop ++ q) (sym drained)
          ∙ sound.conserved,
    )
