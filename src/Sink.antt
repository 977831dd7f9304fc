-- ===== src/Sink.antt =====
-- internal/sink/batcher.go: rows collected into batches, and the retry of an insert.
pub mod Batches
pub mod Flushing
pub mod Landed
pub mod Reachable
pub mod Retry
pub mod Service
pub mod Shutdown
pub mod ClickHouse
pub mod Stats
mod Examples
use tickstore.Prelude.{
  Bool, List, [], false, if◌then◌else◌, leb, leb_ℤ, length, not, pos, pos_part, true, wrap64, ℕ, ℤ,
  ◌*ℤ◌, ◌*◌, ◌++◌, ◌^◌, ◌||◌, ◌∷◌,
}
use tickstore.Venue.Reconnect.{double_capped, rand_below}

-- The numbers of `Config`; durations are in nanoseconds. (A logger has no effect on the rows.)
pub record Config : Type 0 where
  pub max_rows : ℤ
  pub max_delay : ℤ
  pub buffer_size : ℤ
  pub retry_min : ℤ
  pub retry_max : ℤ

-- `if v <= 0 { v = fallback }`
abbrev pub or_default : ℤ → ℤ → ℤ
or_default fallback v = if leb_ℤ v (pos 0) then fallback else v

abbrev pub default_max_rows : ℕ
default_max_rows = 10_000

abbrev pub default_max_delay : ℕ
default_max_delay = 250 * 10 ^ 6

abbrev pub default_retry_min : ℕ
default_retry_min = 500 * 10 ^ 6

abbrev pub default_retry_max : ℕ
default_retry_max = 30 * 10 ^ 9

unfoldable pub with_defaults : Config → Config
with_defaults c =
    let rows = or_default (pos default_max_rows) c.max_rows in
    record {
      max_rows = rows;
      max_delay = or_default (pos default_max_delay) c.max_delay;
      buffer_size = or_default (wrap64 (pos 2 *ℤ rows)) c.buffer_size;
      retry_min = or_default (pos default_retry_min) c.retry_min;
      retry_max = or_default (pos default_retry_max) c.retry_max;
    }

-- One call of `Insert`: it landed; it failed and the context was cancelled; it failed, and the wait
-- before the next try was cut short by the cancellation, or ran to its end with this random number.
pub data Attempt : Type 0 where
  landed failed_cancelled failed_then_cancelled : Attempt
  failed : ℕ → Attempt

pub data Outcome : Type 0 where
  inserted given_up still_trying : Outcome

-- The waits between the tries, and how it ended; `still_trying` where the attempts run out.
unfoldable pub insert_with_retry : ℕ → ℕ → List Attempt → List ℕ × Outcome
insert_with_retry cap backoff [] = ([], still_trying)
insert_with_retry cap backoff (landed ∷ rest) = ([], inserted)
insert_with_retry cap backoff (failed_cancelled ∷ rest) = ([], given_up)
insert_with_retry cap backoff (failed_then_cancelled ∷ rest) = ([], given_up)
insert_with_retry cap backoff (failed draw ∷ rest) =
    let (waits, end) = insert_with_retry cap (double_capped cap backoff) rest in
    (rand_below backoff draw ∷ waits, end)

-- What the run loop waits for. `stop` comes with the rows that are still queued.
pub data Event {ℓ} (A : Type ℓ) : Type ℓ where
  row : A → Event A
  tick : Event A
  stop : List A → Event A

-- The loop's buffer, the batches that it handed to `insertWithRetry` with their outcomes, and whether
-- it has returned. `hung` is a flush that has not come back.
pub record Batcher {ℓ} (A : Type ℓ) : Type ℓ where
  pub buf : List A
  pub flushed : List (List A × Outcome)
  pub done : Bool
  pub hung : Bool

unfoldable pub start {ℓ} : {A : Type ℓ} → Batcher A
start = record { buf = []; flushed = []; done = false; hung = false }

abbrev pub is_hung : Outcome → Bool
is_hung still_trying = true
is_hung _ = false

abbrev pub is_idle {ℓ} : {A : Type ℓ} → Batcher A → Bool
is_idle b = b.done || b.hung

-- How the calls of one `insertWithRetry` end.
unfoldable pub outcome : Config → List Attempt → Outcome
unfolding insert_with_retry
outcome cfg attempts =
    (insert_with_retry (pos_part cfg.retry_max) (pos_part cfg.retry_min) attempts).1

-- `attempts n` is what the inserter does in the flush with the number `n`.
module _ {ℓ} {A : Type ℓ} (cfg : Config) (attempts : ℕ → List Attempt) where
  -- `flush`: an insert that hangs keeps the buffer.
  unfoldable pub flush : Batcher A → Batcher A
  flush b = elim b.buf [
    | [] ↦ b
    | x ∷ xs ↦
        let end = outcome cfg (attempts (length b.flushed)) in
        if is_hung end
        then record b { hung = true }
        else record b { buf = []; flushed = b.flushed ++ (b.buf, end) ∷ [] }
  ]

  unfoldable pub add_row : Batcher A → A → Batcher A
  unfolding flush
  add_row b v =
      let fuller = record b { buf = b.buf ++ v ∷ [] } in
      if leb (pos_part cfg.max_rows) (length fuller.buf) then flush fuller else fuller

  -- The drain of the channel at a stop. A flush that hangs leaves the rest in the channel.
  unfoldable pub drain : Batcher A → List A → Batcher A
  unfolding add_row
  drain b [] = let last = flush b in record last { done = not last.hung }
  drain b (v ∷ vs) =
      let next = add_row b v in let rest = drain next vs in if next.hung then next else rest

  unfoldable pub step : Batcher A → Event A → Batcher A
  unfolding drain
  step b (row v) = add_row b v
  step b tick = flush b
  step b (stop queued) = drain b queued

  -- The `select` loop, over the events in the order in which it takes them.
  unfoldable pub run : Batcher A → List (Event A) → Batcher A
  unfolding step
  run b [] = b
  run b (e ∷ es) = let rest = run (step b e) es in if is_idle b then b else rest
