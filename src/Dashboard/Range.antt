-- ===== src/Dashboard/Range.antt =====
-- internal/dashboard/server.go: the range and the buckets of the charts, and the handler `history`.
use tickstore.Prelude.{
  Assoc, Bytes, List, Option, Result, [], bytes_eq, codes, err, if◌then◌else◌, int_eq, leb, lookup,
  ltb_ℤ, nat_eq, neg_ℤ, negsuc, none, not, ok, pos, pos_part, some, ℕ, ℤ, ◌&&◌, ◌*ℤ◌, ◌*◌, ◌+ℤ◌,
  ◌/◌, ◌==◌, ◌>>=◌, ◌∷◌,
}
use tickstore.Norm.{Time}
use tickstore.Norm.Decimal.{parse_int_or_limit}
use tickstore.Live.Quotes.{Floats}
use tickstore.Sink.Stats.{StatsError}
use tickstore.Sink.Stats.History.{
  LatencyPoint, PricePoint, RatePoint, latency_history, price_history, throughput_history,
}
use tickstore.Dashboard.{Response, Store, bad_range, json, query_failed, second}

-- The window and the bucket of a preset range, in seconds.
abbrev pub range_buckets : Assoc Bytes (ℕ × ℕ)
range_buckets =
    (codes "3m", (180, 3))
    ∷ (codes "1h", (3600, 60))
    ∷ (codes "6h", (21600, 300))
    ∷ (codes "24h", (86400, 900))
    ∷ []

abbrev pub bucket_steps : List ℕ
bucket_steps =
    1 ∷ 2 ∷ 3 ∷ 5 ∷ 10 ∷ 15 ∷ 30 ∷ 60 ∷ 120 ∷ 300 ∷ 600 ∷ 900 ∷ 1800 ∷ 3600 ∷ 7200 ∷ 10800 ∷ 21600
    ∷ 43200 ∷ 86400 ∷ []

-- The loop: the first step that reaches `target`, the last one where none does.
unfoldable pub first_step : ℕ → List ℕ → ℕ
first_step target [] = 86400
first_step target (s ∷ steps) = if leb target s then s else first_step target steps

-- For a `span_sec` that is not negative.
unfoldable pub bucket_for : ℕ → ℕ
unfolding first_step
bucket_for span_sec = first_step (span_sec / 80) bucket_steps

pub record Window : Type 0 where
  pub from : Time
  pub to : Time
  pub bucket_sec : ℕ

-- The longest retention, 90 days.
abbrev pub retention : ℕ
retention = 90 * 24 * 3600 * second

abbrev pub before : Time → ℕ → Time
before t d = t +ℤ neg_ℤ (pos d)

abbrev pub earlier : Time → Time → Time
earlier s t = if ltb_ℤ t s then t else s

abbrev pub later : Time → Time → Time
later s t = if ltb_ℤ s t then t else s

-- `int(to.Sub(from).Seconds())`, which is exact below 2^23 seconds.
abbrev pub span_seconds : Time → Time → ℕ
span_seconds from to = pos_part (to +ℤ neg_ℤ from) / second

-- The branch of `?from=&to=`, at the time `now`.
unfoldable pub custom_window : Bytes → Bytes → Time → Option Window
unfolding bucket_for
custom_window fs ts now =
    let to = earlier (parse_int_or_limit ts *ℤ pos 1_000_000) now in
    let from = later (parse_int_or_limit fs *ℤ pos 1_000_000) (before now retention) in
    if ltb_ℤ from to
    then some (record { from = from; to = to; bucket_sec = bucket_for (span_seconds from to) })
    else none

abbrev pub or_hour : Option (ℕ × ℕ) → ℕ × ℕ
or_hour none = (3600, 60)
or_hour (some rb) = rb

-- The branch of `?range=`.
unfoldable pub preset_window : Bytes → Time → Window
unfolding lookup
preset_window range now =
    let (window, bucket) = or_hour (lookup range range_buckets) in
    record { from = before now (window * second); to = now; bucket_sec = bucket }

unfoldable pub history_window : Bytes → Bytes → Bytes → Time → Option Window
unfolding custom_window preset_window
history_window fs ts range now =
    if not (fs == []) && not (ts == [])
    then custom_window fs ts now
    else some (preset_window range now)

-- `t.UnixMilli()`, rounded down.
unfoldable pub unix_milli : Time → ℤ
unix_milli (pos n) = pos (n / 1_000_000)
unix_milli (negsuc n) = negsuc (n / 1_000_000)

module _ (f : Floats) where
  open f use {Num, zero_num}

  pub record HistoryBody : Type 0 where
    pub from_ms : ℤ
    pub to_ms : ℤ
    pub price : List (PricePoint Num)
    pub latency : List (LatencyPoint Num)
    pub throughput : List (RatePoint Num)
    pub bucket_ms : ℕ

  -- The three queries of a window, in the source's order.
  unfoldable pub window_series : Store Num → Window → Result StatsError HistoryBody
  unfolding unix_milli
  window_series store w = do
    price ← price_history store.price_answer w.from w.to w.bucket_sec
    lat ← latency_history zero_num store.latency_answer w.from w.to w.bucket_sec
    rate ← throughput_history store.rate_answer w.from w.to w.bucket_sec
    ok (record {
      from_ms = unix_milli w.from;
      to_ms = unix_milli w.to;
      price = price;
      latency = lat;
      throughput = rate;
      bucket_ms = w.bucket_sec * 1000;
    })

  unfoldable pub history : Store Num → Bytes → Bytes → Bytes → Time → Response HistoryBody
  unfolding history_window window_series
  history store fs ts range now = elim (history_window fs ts range now) [
    | none ↦ bad_range
    | some w ↦ elim (window_series store w) [ ok body ↦ json body | err e ↦ query_failed ]
  ]
