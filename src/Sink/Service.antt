-- ===== src/Sink/Service.antt =====
-- internal/sink/batcher.go: a Batcher with its channel, shared by the callers of Add, the run loop and
-- Close. Each step is one communication of a `select`.
use tickstore.Prelude.{
  Bool, List, [], false, if◌then◌else◌, length, pos_part, true, ℕ, ◌++◌, ◌<◌, ◌∷◌, ◌≡◌,
}
use tickstore.Sink.{Attempt, Batcher, Config, add_row, drain, flush, is_idle, start}

-- The channel `in`, whether `stop` is closed, and whether the run loop is in its final drain.
pub record Service {ℓ} (A : Type ℓ) : Type ℓ where
  pub loop : Batcher A
  pub channel : List A
  pub stopping : Bool
  pub draining : Bool

unfoldable pub new_batcher {ℓ} : {A : Type ℓ} → Service A
unfolding start
new_batcher = record { loop = start; channel = []; stopping = false; draining = false }

-- The capacity of the channel. (The defaults make it positive.)
abbrev pub capacity : Config → ℕ
capacity cfg = pos_part cfg.buffer_size

-- `b.in <- v`
abbrev pub accept {ℓ} : {A : Type ℓ} → Service A → A → Service A
accept s v = record s { channel = s.channel ++ v ∷ [] }

-- `close(b.stop)`, once.
abbrev pub close_stop {ℓ} : {A : Type ℓ} → Service A → Service A
close_stop s = record s { stopping = true }

abbrev pub begin_drain {ℓ} : {A : Type ℓ} → Service A → Service A
begin_drain s = record s { draining = true }

module _ {ℓ} {A : Type ℓ} (cfg : Config) (attempts : ℕ → List Attempt) where
  -- `v := <-b.in` in either loop.
  unfoldable pub receive : Service A → A → List A → Service A
  unfolding add_row
  receive s v rest = record s { loop = add_row cfg attempts s.loop v; channel = rest }

  unfoldable pub on_tick : Service A → Service A
  unfolding flush
  on_tick s = record s { loop = flush cfg attempts s.loop }

  -- The last flush, where the channel is found empty.
  unfoldable pub finish : Service A → Service A
  unfolding drain
  finish s = record s { loop = drain cfg attempts s.loop [] }

-- The steps that accept no row. `Add` returns without one only when `stop` is closed.
pub data Move {ℓ} {A : Type ℓ} (cfg : Config) (attempts : ℕ → List Attempt)
    : Service A → Service A → Type ℓ where
  refuses : (s : Service A) → s.stopping ≡ true → Move cfg attempts s s
  receives :
      (s : Service A) (v : A) (rest : List A)
      → is_idle s.loop ≡ false
      → s.channel ≡ v ∷ rest
      → Move cfg attempts s (receive cfg attempts s v rest)
  ticks :
      (s : Service A)
      → is_idle s.loop ≡ false
      → s.draining ≡ false
      → Move cfg attempts s (on_tick cfg attempts s)
  closes : (s : Service A) → Move cfg attempts s (close_stop s)
  begins_drain :
      (s : Service A)
      → is_idle s.loop ≡ false
      → s.stopping ≡ true
      → Move cfg attempts s (begin_drain s)
  finishes :
      (s : Service A)
      → is_idle s.loop ≡ false
      → s.draining ≡ true
      → s.channel ≡ []
      → Move cfg attempts s (finish cfg attempts s)

-- Any number of such steps.
pub data Moves {ℓ} {A : Type ℓ} (cfg : Config) (attempts : ℕ → List Attempt)
    : Service A → Service A → Type ℓ where
  stays : {s : Service A} → Moves cfg attempts s s
  followed :
      {s t u : Service A} → Move cfg attempts s t → Moves cfg attempts t u → Moves cfg attempts s u

-- What can come about from `NewBatcher`, with the rows that the channel accepted, in order.
pub data Reaches {ℓ} {A : Type ℓ} (cfg : Config) (attempts : ℕ → List Attempt)
    : List A → Service A → Type ℓ where
  starts : Reaches cfg attempts [] new_batcher
  accepts :
      {rows : List A} {s : Service A} (v : A)
      → Reaches cfg attempts rows s
      → length s.channel < capacity cfg
      → Reaches cfg attempts (rows ++ v ∷ []) (accept s v)
  moves :
      {rows : List A} {s t : Service A}
      → Reaches cfg attempts rows s
      → Move cfg attempts s t
      → Reaches cfg attempts rows t

-- What `Close` does to the run loop's context and the inserter.
pub data CloseCall : Type 0 where
  cancel_inserts wait_for_loop close_inserter : CloseCall

-- `Close` after `close(b.stop)`: `in_time` tells whether the loop returned before the deadline.
unfoldable pub close {ℓ} : {R : Type ℓ} → Bool → R → R → List CloseCall × R
close in_time deadline_error closed =
    if in_time
    then (cancel_inserts ∷ close_inserter ∷ [], closed)
    else (cancel_inserts ∷ wait_for_loop ∷ close_inserter ∷ [], deadline_error)
