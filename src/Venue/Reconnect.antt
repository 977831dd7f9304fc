-- ===== src/Venue/Reconnect.antt =====
-- internal/venue/reconnect.go: the loop that keeps a session alive.
pub mod Backoff
use tickstore.Prelude.{Bool, List, [], false, if◌then◌else◌, ltb, true, ℕ, ◌%◌, ◌*◌, ◌^◌, ◌∷◌}

-- One round of the loop: whether the session received data, whether the context was cancelled when
-- it ended, the random number that was drawn, and whether the context was cancelled in the wait.
pub record Round : Type 0 where
  pub got_data : Bool
  pub cancelled : Bool
  pub draw : ℕ
  pub cancelled_asleep : Bool

-- Durations are in nanoseconds.
abbrev pub second : ℕ
second = 10 ^ 9

abbrev pub backoff_min : ℕ
backoff_min = second

abbrev pub backoff_max : ℕ
backoff_max = 60 * second

-- `rand.N(n)`: a number below `n`.
abbrev pub rand_below : ℕ → ℕ → ℕ
rand_below n draw = draw % n

-- `if backoff *= 2; backoff > max { backoff = max }`
unfoldable pub double_capped : ℕ → ℕ → ℕ
double_capped cap backoff = if ltb cap (backoff * 2) then cap else backoff * 2

-- The sleeps that the loop took, and whether it has returned after these rounds.
unfoldable pub keep_alive : (low high : ℕ) → ℕ → List Round → List ℕ × Bool
unfolding double_capped
keep_alive low high backoff [] = ([], false)
keep_alive low high backoff (r ∷ rs) =
    let current = if r.got_data then low else backoff in
    let sleep = rand_below current r.draw in
    let rest = keep_alive low high (double_capped high current) rs in
    if r.cancelled
    then ([], true)
    else if r.cancelled_asleep
    then (sleep ∷ [], true)
    else (sleep ∷ rest.0, rest.1)

unfoldable pub run_with_reconnect : List Round → List ℕ × Bool
unfolding keep_alive
run_with_reconnect = keep_alive backoff_min backoff_max backoff_min
