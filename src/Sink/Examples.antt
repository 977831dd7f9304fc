-- ===== src/Sink/Examples.antt =====
-- internal/sink/batcher.go on concrete events.
use tickstore.Prelude.{
  All, List, [], arith, false, length, min, pos, refl, true, ℕ, ◌*◌, ◌++◌, ◌^◌, ◌∷◌, ◌≡◌, ◌≤◌,
}
use tickstore.Venue.Reconnect.Backoff.{AllBelow}
use tickstore.Sink.{
  Attempt, Config, Event, add_row, drain, failed, flush, insert_with_retry, landed, outcome, row,
  run, start, stop, tick,
}
use tickstore.Sink.Batches.{rows_sent, run-conserves}
use tickstore.Sink.Flushing.{AllReturn, IsBatch, rows_flushed, rows_held}
use tickstore.Sink.Shutdown.{Reaches-conserves, close-Moves}
use tickstore.Sink.Service.{
  Moves, Reaches, Service, accept, accepts, begin_drain, begins_drain, capacity, close_stop, closes,
  finish, finishes, moves, new_batcher, receive, receives, starts,
}
use tickstore.Sink.Retry.{first_end, insert_with_retry_lem, retry_limits}

abbrev pairs_of_rows : Config
pairs_of_rows = record {
  max_rows = pos 2;
  max_delay = pos 1;
  buffer_size = pos 4;
  retry_min = pos 500;
  retry_max = pos 800;
}

-- Every insert fails once and then lands.
abbrev second_try : ℕ → List Attempt
second_try n = failed 600 ∷ landed ∷ []

abbrev events : List (Event ℕ)
events = row 1 ∷ row 2 ∷ row 3 ∷ tick ∷ row 4 ∷ stop (5 ∷ 6 ∷ []) ∷ []

second_try-returns : AllReturn pairs_of_rows second_try
unfolding outcome
second_try-returns n = refl

run-conserves_example :
    (rows_held (run pairs_of_rows second_try start events) ≡ rows_sent events)
    × All (IsBatch 2) (run pairs_of_rows second_try start events).flushed
    × ((run pairs_of_rows second_try start events).done ≡ true
        → (run pairs_of_rows second_try start events).buf ≡ [])
run-conserves_example =
    run-conserves pairs_of_rows second_try events second_try-returns (omega arith)

insert_with_retry_lem_example :
    AllBelow
      (insert_with_retry 800 (min 800 (500 * 2 ^ 0)) (second_try 0)).0
      (retry_limits 500 800 0 (length (second_try 0)))
    × ((insert_with_retry 800 (min 800 (500 * 2 ^ 0)) (second_try 0)).1 ≡ first_end (second_try 0))
insert_with_retry_lem_example =
    insert_with_retry_lem 500 800 0 (second_try 0) (omega arith) (omega arith)

-- A row is received, Close closes `stop`, and the loop returns.
abbrev busy : Service ℕ
busy = receive pairs_of_rows second_try (accept new_batcher 1) 1 []

busy-reached : Reaches pairs_of_rows second_try (1 ∷ []) busy
unfolding new_batcher start
busy-reached = moves (accepts 1 starts (omega arith)) (receives _ 1 [] refl refl)

abbrev returned : Service ℕ
returned = finish pairs_of_rows second_try (begin_drain (close_stop busy))

returned-reached : Reaches pairs_of_rows second_try (1 ∷ []) returned
unfolding new_batcher start receive add_row flush
returned-reached =
    moves (moves (moves busy-reached (closes _)) (begins_drain _ refl refl))
      (finishes _ refl refl refl)

-- A row that Add puts into the channel after that: it stays there.
abbrev late : Service ℕ
late = accept returned 2

late-reached : Reaches pairs_of_rows second_try (1 ∷ 2 ∷ []) late
unfolding new_batcher start receive finish add_row flush drain
late-reached = accepts 2 returned-reached (omega arith)

Reaches-conserves_example :
    (rows_held late.loop ++ late.channel ≡ 1 ∷ 2 ∷ [])
    × (length late.channel ≤ capacity pairs_of_rows)
    × All (IsBatch 2) late.loop.flushed
    × (late.loop.done ≡ true → (late.loop.buf ≡ []) × (late.stopping ≡ true))
Reaches-conserves_example =
    Reaches-conserves pairs_of_rows second_try (1 ∷ 2 ∷ []) late second_try-returns (omega arith)
      late-reached

late-lost : (late.loop.done ≡ true) × (late.channel ≡ 2 ∷ [])
unfolding new_batcher start receive finish add_row flush drain outcome insert_with_retry
late-lost = (refl, refl)

busy-runs : busy.loop.done ≡ false
unfolding new_batcher start receive add_row flush
busy-runs = refl

close-Moves_example :
    (t : Service ℕ) × Moves pairs_of_rows second_try busy t
    × (t.loop.done ≡ true)
    × (rows_flushed t.loop.flushed ≡ 1 ∷ [])
close-Moves_example =
    close-Moves pairs_of_rows second_try (1 ∷ []) busy second_try-returns (omega arith) busy-reached
      busy-runs
