-- ===== src/Sink/Retry.antt =====
-- The defaults of `Config` in internal/sink/batcher.go, and the retry of an insert.
use native.Mathlib.Nat.{mod-lt}
use tickstore.Prelude.{
  List, [], arith, length, min, negsuc, pos, pos_part, refl, suc, wrap64, zero, ℕ, ℤ, ◌*ℤ◌, ◌*◌,
  ◌+◌, ◌-◌, ◌<◌, ◌^◌, ◌∷◌, ◌≡◌, ◌≤◌,
}
use tickstore.Venue.Reconnect.Backoff.{AllBelow, double_limit, limit_pos}
use tickstore.Sink.{
  Attempt, Config, Outcome, default_max_delay, default_max_rows, default_retry_max,
  default_retry_min, failed, failed_cancelled, failed_then_cancelled, given_up, insert_with_retry,
  inserted, landed, or_default, still_trying, with_defaults,
}

-- A configuration that the run loop can work with.
pub record IsUsable (c : Config) : Type 0 where
  pub rows : 0 < pos_part c.max_rows
  pub delay : 0 < pos_part c.max_delay
  pub buffer : 0 < pos_part c.buffer_size
  pub retry_min : 0 < pos_part c.retry_min
  pub retry_max : 0 < pos_part c.retry_max

or_default-positive : (n : ℕ) (v : ℤ) → 0 < n → 0 < pos_part (or_default (pos n) v)
or_default-positive n (pos m) h = ground arith
or_default-positive n (negsuc m) h = ground arith

-- The limits of `count` waits, behind `k` others.
unfoldable pub retry_limits : (low cap k count : ℕ) → List ℕ
retry_limits low cap k zero = []
retry_limits low cap k (suc count) = min cap (low * 2 ^ k) ∷ retry_limits low cap (k + 1) count

-- How the first attempt that is not a plain failure ends.
unfoldable pub first_end : List Attempt → Outcome
first_end [] = still_trying
first_end (landed ∷ rest) = inserted
first_end (failed_cancelled ∷ rest) = given_up
first_end (failed_then_cancelled ∷ rest) = given_up
first_end (failed draw ∷ rest) = first_end rest

-- From a backoff of the smaller of the longest one and 2^k times a shortest one, which is positive
-- and at most the longest, the i-th wait is below the smaller of the longest and 2^(k+i) times the
-- shortest; the call ends as its first attempt that lands or meets the cancellation says.
pub insert_with_retry_lem :
    (low cap k : ℕ) (attempts : List Attempt)
    → 0 < low
    → low ≤ cap
    → AllBelow
        (insert_with_retry cap (min cap (low * 2 ^ k)) attempts).0
        (retry_limits low cap k (length attempts))
      × ((insert_with_retry cap (min cap (low * 2 ^ k)) attempts).1 ≡ first_end attempts)
unfolding insert_with_retry retry_limits first_end
insert_with_retry_lem low cap k [] h le = (tt, refl)
insert_with_retry_lem low cap k (landed ∷ rest) h le = (tt, refl)
insert_with_retry_lem low cap k (failed_cancelled ∷ rest) h le = (tt, refl)
insert_with_retry_lem low cap k (failed_then_cancelled ∷ rest) h le = (tt, refl)
insert_with_retry_lem low cap k (failed draw ∷ rest) h le =
    let (waits, end) = insert_with_retry_lem low cap (k + 1) rest h le in
    rw (double_limit low cap k) ((mod-lt draw (limit_pos low cap k h le), waits), end)

or_default-given : (a v : ℤ) → 0 < pos_part a → 0 < pos_part (or_default a v)
or_default-given (pos n) (pos m) h = ground arith
or_default-given (pos n) (negsuc m) h = ground arith
or_default-given (negsuc n) v h = absurd (omega arith)

or_default-small : (n m : ℕ) (v : ℤ) → n ≤ m → pos_part v ≤ m → pos_part (or_default (pos n) v) ≤ m
or_default-small n m (pos k) h le = ground arith
or_default-small n m (negsuc k) h le = ground arith

twice-positive : (v : ℤ) → 0 < pos_part v → pos_part v < 2 ^ 62 → 0 < pos_part (wrap64 (pos 2 *ℤ v))
unfolding wrap64 ◌*ℤ◌
twice-positive (pos n) h le = ground arith
twice-positive (negsuc n) h le = absurd (omega arith)

-- Whatever the fields are that a caller leaves at zero or sets below it, the defaults make the
-- configuration usable, provided `MaxRows` is below 2^62, so that its double is an `int`.
with_defaults-IsUsable : (c : Config) → pos_part c.max_rows < 2 ^ 62 → IsUsable (with_defaults c)
unfolding with_defaults
with_defaults-IsUsable c small =
    let rows : 0 < pos_part (or_default (pos default_max_rows) c.max_rows) =
      or_default-positive default_max_rows c.max_rows (omega arith) in
    let bound : pos_part (or_default (pos default_max_rows) c.max_rows) ≤ 2 ^ 62 - 1 =
      or_default-small default_max_rows (2 ^ 62 - 1) c.max_rows (omega arith)
        (omega (arith, small)) in
    record {
      rows = rows;
      delay = or_default-positive default_max_delay c.max_delay (omega arith);
      buffer =
          or_default-given (wrap64 (pos 2 *ℤ or_default (pos default_max_rows) c.max_rows))
            c.buffer_size
            (twice-positive (or_default (pos default_max_rows) c.max_rows) rows
              (omega (arith, bound)));
      retry_min = or_default-positive default_retry_min c.retry_min (omega arith);
      retry_max = or_default-positive default_retry_max c.retry_max (omega arith);
    }
