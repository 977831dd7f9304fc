-- ===== src/Queue/Examples.antt =====
-- internal/queue/queue.go on concrete turns.
use mathlib.Core.List.{Perm}
use tickstore.Prelude.{Bytes, List, Option, [], false, none, some, true, ℕ, ◌∷◌, ◌≡◌}
use tickstore.Queue.{Turn, batch, consume_turns, fetch_failed}
use tickstore.Queue.Replies.{decoded}
use tickstore.Queue.Delivery.{acked, consume_turns-acked, fetched, messages}

-- A message of one byte decodes to it.
abbrev one_byte : Bytes → Option ℕ
one_byte (c ∷ []) = some c
one_byte _ = none

-- A batch that is not inserted, a failed fetch, the batch again, and the cancellation.
abbrev turns : List Turn
turns =
    record { cancelled = false; fetch = batch ((1 ∷ []) ∷ [] ∷ (2 ∷ []) ∷ []) false }
    ∷ record { cancelled = false; fetch = fetch_failed false }
    ∷ record { cancelled = false; fetch = batch ((1 ∷ []) ∷ (2 ∷ []) ∷ []) true }
    ∷ record { cancelled = true; fetch = fetch_failed true }
    ∷ []

consume_turns-acked_example :
    ((consume_turns one_byte turns).rows
      ≡ decoded one_byte (acked (consume_turns one_byte turns).replies))
    × Perm (messages (consume_turns one_byte turns).replies) (fetched turns)
consume_turns-acked_example = consume_turns-acked one_byte turns
