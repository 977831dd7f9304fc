-- ===== src/Sink/Reachable.antt =====
-- Lemmas about the states of a batcher of internal/sink/batcher.go that its callers, its loop and
-- Close share.
use mathlib.Core.Bool.{true≢false}
use tickstore.Prelude.{
  All, List, [], ap, append-nil, append_assoc, arith, false, inl, inr, length, length-append,
  pos_part, refl, sym, true, ℕ, ◌++◌, ◌<◌, ◌∙◌, ◌∷◌, ◌≡◌, ◌≤◌, ◌⊎◌,
}
use tickstore.Sink.{Attempt, Batcher, Config, is_idle, start}
use tickstore.Sink.Flushing.{
  AllReturn, IsBatch, IsLive, add_row-IsLive, add_row-rows, drain_lem, flush-IsLive, flush-rows,
  rows_flushed, rows_held, start-IsLive,
}
use tickstore.Sink.Service.{
  Move, Reaches, Service, accepts, begins_drain, capacity, closes, finish, finishes, moves,
  new_batcher, on_tick, receive, receives, refuses, starts, ticks,
}

-- A loop that has returned: nothing is left in its buffer, and its batches have their size.
pub record HasReturned {ℓ} {A : Type ℓ} (limit : ℕ) (b : Batcher A) : Type ℓ where
  pub done : b.done ≡ true
  pub empty : b.buf ≡ []
  pub sized : All (IsBatch limit) b.flushed

pub record IsSound {ℓ} {A : Type ℓ} (limit cap : ℕ) (rows : List A) (s : Service A) : Type ℓ where
  pub conserved : rows_held s.loop ++ s.channel ≡ rows
  pub bounded : length s.channel ≤ cap
  pub phase : IsLive limit s.loop ⊎ HasReturned limit s.loop
  pub closing : s.draining ≡ true → s.stopping ≡ true
  pub ending : s.loop.done ≡ true → s.draining ≡ true

-- The run loop takes a step only while it lives.
IsLive-of {ℓ} :
    {A : Type ℓ} (limit : ℕ) (b : Batcher A)
    → is_idle b ≡ false
    → IsLive limit b ⊎ HasReturned limit b
    → IsLive limit b
IsLive-of limit b h (inl live) = live
IsLive-of limit b h (inr over) = absurd (true≢false (sym (rw over.done refl) ∙ h))

pub IsLive-of_runs {ℓ} :
    {A : Type ℓ} (limit : ℕ) (b : Batcher A)
    → b.done ≡ false
    → IsLive limit b ⊎ HasReturned limit b
    → IsLive limit b
IsLive-of_runs limit b runs (inl live) = live
IsLive-of_runs limit b runs (inr over) = absurd (true≢false (sym over.done ∙ runs))

pub sized_of {ℓ} :
    {A : Type ℓ} (limit : ℕ) (b : Batcher A)
    → IsLive limit b ⊎ HasReturned limit b
    → All (IsBatch limit) b.flushed
sized_of limit b (inl live) = live.sized
sized_of limit b (inr over) = over.sized

pub empty_of {ℓ} :
    {A : Type ℓ} (limit : ℕ) (b : Batcher A)
    → b.done ≡ true
    → IsLive limit b ⊎ HasReturned limit b
    → b.buf ≡ []
empty_of limit b d (inl live) = absurd (true≢false (sym d ∙ live.running))
empty_of limit b d (inr over) = over.empty

module _ {ℓ} {A : Type ℓ} (cfg : Config) (attempts : ℕ → List Attempt)
    (back : AllReturn cfg attempts) (h : 0 < pos_part cfg.max_rows) where
  new_batcher-IsSound : IsSound {A = A} (pos_part cfg.max_rows) (capacity cfg) [] new_batcher
  unfolding new_batcher start rows_flushed
  new_batcher-IsSound = record {
    conserved = refl;
    bounded = omega arith;
    phase = inl (start-IsLive cfg attempts back h);
    closing = λ e. absurd (true≢false (sym e));
    ending = λ e. absurd (true≢false (sym e));
  }

  Move-IsSound :
      (rows : List A) {s t : Service A}
      → Move cfg attempts s t
      → IsSound (pos_part cfg.max_rows) (capacity cfg) rows s
      → IsSound (pos_part cfg.max_rows) (capacity cfg) rows t
  unfolding receive on_tick finish
  Move-IsSound rows (refuses s h) sound = sound
  Move-IsSound rows (receives s v rest idle e) sound =
      let live = IsLive-of (pos_part cfg.max_rows) s.loop idle sound.phase in
      let next = add_row-IsLive cfg attempts back s.loop v h live in
      record {
        conserved =
            ap (λ t. t ++ rest) (add_row-rows cfg attempts s.loop v)
            ∙ append_assoc (rows_held s.loop) (v ∷ []) rest
            ∙ rw e at sound.conserved;
        bounded = omega (arith, rw e at sound.bounded);
        phase = inl next;
        closing = sound.closing;
        ending = λ d. absurd (true≢false (sym d ∙ next.running));
      }
  Move-IsSound rows (ticks s idle e) sound =
      let live = IsLive-of (pos_part cfg.max_rows) s.loop idle sound.phase in
      let next =
        (flush-IsLive cfg attempts back (pos_part cfg.max_rows) s.loop h live.running live.returned
          live.sized (omega (arith, live.room))).0 in
      record {
        conserved = ap (λ t. t ++ s.channel) (flush-rows cfg attempts s.loop) ∙ sound.conserved;
        bounded = sound.bounded;
        phase = inl next;
        closing = sound.closing;
        ending = λ d. absurd (true≢false (sym d ∙ next.running));
      }
  Move-IsSound rows (closes s) sound = record {
    conserved = sound.conserved;
    bounded = sound.bounded;
    phase = sound.phase;
    closing = λ e. refl;
    ending = sound.ending;
  }
  Move-IsSound rows (begins_drain s idle stopped) sound = record {
    conserved = sound.conserved;
    bounded = sound.bounded;
    phase = sound.phase;
    closing = λ e. stopped;
    ending = λ e. refl;
  }
  Move-IsSound rows (finishes s idle d e) sound =
      let live = IsLive-of (pos_part cfg.max_rows) s.loop idle sound.phase in
      let (done, empty, sized, held) = drain_lem cfg attempts back s.loop [] h live in
      record {
        conserved =
            ap (λ t. t ++ s.channel) (held ∙ append-nil (rows_held s.loop)) ∙ sound.conserved;
        bounded = sound.bounded;
        phase = inr (record { done = done; empty = empty; sized = sized });
        closing = sound.closing;
        ending = λ q. d;
      }

  pub Reaches-IsSound :
      {rows : List A} {s : Service A}
      → Reaches cfg attempts rows s
      → IsSound (pos_part cfg.max_rows) (capacity cfg) rows s
  Reaches-IsSound starts = new_batcher-IsSound
  Reaches-IsSound (accepts {rows} {s} v r room) =
      let sound = Reaches-IsSound r in
      record {
        conserved =
            sym (append_assoc (rows_held s.loop) s.channel (v ∷ []))
            ∙ ap (λ t. t ++ v ∷ []) sound.conserved;
        bounded = omega (arith, room, length-append s.channel (v ∷ []));
        phase = sound.phase;
        closing = sound.closing;
        ending = sound.ending;
      }
  Reaches-IsSound (moves {rows} r m) = Move-IsSound rows m (Reaches-IsSound r)
