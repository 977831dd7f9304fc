-- ===== src/Queue.antt =====
-- internal/queue/queue.go: the log of messages between the publishers and the inserter.
pub mod Replies
pub mod Delivery
mod Examples
use tickstore.Prelude.{
  Bool, Bytes, List, Option, [], false, if◌then◌else◌, none, not, some, true, ◌++◌, ◌∷◌,
}

-- What the consumer does with a message of the log.
pub data Reply : Type 0 where
  ack nak : Reply

-- What a fetch gives: a failure, and whether the context is cancelled by then, or the messages of a
-- batch and whether the insert of their rows succeeds.
pub data Fetch : Type 0 where
  fetch_failed : Bool → Fetch
  batch : List Bytes → Bool → Fetch

-- A turn of the loop: whether it finds the context cancelled, and the fetch that it else makes.
pub record Turn : Type 0 where
  pub cancelled : Bool
  pub fetch : Fetch

-- The replies in order, the rows inserted, and whether `Consume` has returned.
pub record Consumed {ℓ} (A : Type ℓ) : Type ℓ where
  pub replies : List (Bytes × Reply)
  pub rows : List A
  pub returned : Bool

abbrev pub ends_here {ℓ} : {A : Type ℓ} → Consumed A
ends_here = record { replies = []; rows = []; returned = true }

-- `decode` is `json.Unmarshal` of a row.
module _ {ℓ} {A : Type ℓ} (decode : Bytes → Option A) where
  -- The rows that decode, with their messages, and the poison messages, acked at once.
  unfoldable pub sort_messages : List Bytes → List (Bytes × A) × List (Bytes × Reply)
  sort_messages [] = ([], [])
  sort_messages (m ∷ ms) =
      let (good, poison) = sort_messages ms in
      elim (decode m) [ none ↦ (good, (m, ack) ∷ poison) | some v ↦ ((m, v) ∷ good, poison) ]

  abbrev pub reply_all : Reply → List (Bytes × A) → List (Bytes × Reply)
  reply_all r [] = []
  reply_all r ((m, v) ∷ rest) = (m, r) ∷ reply_all r rest

  abbrev pub rows_of : List (Bytes × A) → List A
  rows_of [] = []
  rows_of ((m, v) ∷ rest) = v ∷ rows_of rest

  -- The replies to a batch in order, and the rows that were inserted.
  unfoldable pub consume_round : List Bytes → Bool → List (Bytes × Reply) × List A
  unfolding sort_messages
  consume_round msgs insert_ok =
      let (good, poison) = sort_messages msgs in
      elim good [
        | [] ↦ (poison, [])
        | g ∷ gs ↦
            if insert_ok
            then (poison ++ reply_all ack (g ∷ gs), rows_of (g ∷ gs))
            else (poison ++ reply_all nak (g ∷ gs), [])
      ]

  abbrev pub on_fetch : Fetch → Consumed A → Consumed A
  on_fetch (fetch_failed cancelled) rest = if cancelled then ends_here else rest
  on_fetch (batch msgs insert_ok) rest =
      let (replies, rows) = consume_round msgs insert_ok in
      record rest { replies = replies ++ rest.replies; rows = rows ++ rest.rows }

  unfoldable pub consume_turns : List Turn → Consumed A
  unfolding consume_round
  consume_turns [] = record { replies = []; rows = []; returned = false }
  consume_turns (t ∷ ts) =
      let rest = consume_turns ts in if t.cancelled then ends_here else on_fetch t.fetch rest

  -- `Consume`: `none` where the consumer cannot be created.
  unfoldable pub consume : Bool → List Turn → Option (Consumed A)
  unfolding consume_turns
  consume created turns = if created then some (consume_turns turns) else none

-- The calls of `Open`.
pub data OpenCall : Type 0 where
  connect ensure_stream close_connection : OpenCall

pub data OpenError : Type 0 where
  connect_failed jetstream_failed stream_failed : OpenError

-- `Open`, where each step succeeds or not: a connection that is no use is closed.
unfoldable pub open_bus : Bool → Bool → Bool → List OpenCall × Option OpenError
open_bus connects has_jetstream has_stream =
    if not connects
    then (connect ∷ [], some connect_failed)
    else if not has_jetstream
    then (connect ∷ close_connection ∷ [], some jetstream_failed)
    else if not has_stream
    then (connect ∷ ensure_stream ∷ close_connection ∷ [], some stream_failed)
    else (connect ∷ ensure_stream ∷ [], none)

pub data CloseCall : Type 0 where
  await_published await_timeout drain_connection : CloseCall

-- `Close`: what ends the wait, the publishes (`published`) or the five seconds, and whether the connection
-- drains.
unfoldable pub close_bus : Bool → Bool → List CloseCall × Bool
close_bus published drains =
    ((if published then await_published else await_timeout) ∷ drain_connection ∷ [], drains)

-- `Publisher.Add`: the messages that are handed to the log for these rows, where `encode` is
-- `json.Marshal` and `publishes` tells whether the library takes a message.
unfoldable pub publish_all {ℓ} :
    {A : Type ℓ} → (A → Option Bytes) → (Bytes → Bool) → List A → List Bytes
publish_all encode publishes [] = []
publish_all encode publishes (v ∷ vs) =
    let rest = publish_all encode publishes vs in
    elim (encode v) [ none ↦ rest | some m ↦ if publishes m then m ∷ rest else rest ]
