-- ===== src/Sink/Stats/History.antt =====
-- internal/sink/stats.go: the three series of the charts, from the raw tables or from the rollups.
use tickstore.Prelude.{
  Bool, Bytes, List, Result, [], err, if◌then◌else◌, leb, of_u64, ℕ, ℤ, ◌>>=◌, ◌∷◌,
}
use tickstore.Norm.{Time}
use tickstore.Sink.Stats.{Answer, StatsError, no_answer, or_broken, query_failed, scan_points}

-- The tables that a series is read from.
pub data Source : Type 0 where
  raw_tables rollups : Source

unfoldable pub rollup : ℕ → Bool
rollup bucket_sec = leb 60 bucket_sec

unfoldable pub source_of : ℕ → Source
unfolding rollup
source_of bucket_sec = if rollup bucket_sec then rollups else raw_tables

-- A query of a series, with its arguments.
pub record SeriesQuery : Type 0 where
  pub source : Source
  pub bucket_sec : ℕ
  pub from : Time
  pub to : Time

unfoldable pub series_query : Time → Time → ℕ → SeriesQuery
unfolding source_of
series_query from to bucket_sec = record {
  source = source_of bucket_sec;
  bucket_sec = bucket_sec;
  from = from;
  to = to;
}

unfoldable pub points_of : {R P : Type 0} → (R → P) → Answer R → Result StatsError (List P)
unfolding scan_points
points_of point no_answer = err query_failed
points_of point (Answer.rows rs broken) = do out ← scan_points point rs; or_broken broken out

-- `Num` is `float64`. The rows as the driver scans them, `t_ms` being a `uint64`, and the points.
pub record PriceRow (Num : Type 0) : Type 0 where
  pub venue : Bytes
  pub base : Bytes
  pub quote : Bytes
  pub t_ms : ℕ
  pub price : Num

pub record PricePoint (Num : Type 0) : Type 0 where
  pub venue : Bytes
  pub base : Bytes
  pub quote : Bytes
  pub t_ms : ℤ
  pub price : Num

pub record LatencyRow (Num : Type 0) : Type 0 where
  pub venue : Bytes
  pub t_ms : ℕ
  pub quantiles : List Num

pub record LatencyPoint (Num : Type 0) : Type 0 where
  pub venue : Bytes
  pub t_ms : ℤ
  pub p50 : Num
  pub p99 : Num

pub record RateRow (Num : Type 0) : Type 0 where
  pub venue : Bytes
  pub source : Bytes
  pub t_ms : ℕ
  pub rate : Num

pub record RatePoint (Num : Type 0) : Type 0 where
  pub venue : Bytes
  pub source : Bytes
  pub t_ms : ℤ
  pub rate : Num

module _ {Num : Type 0} where
  unfoldable pub price_point : PriceRow Num → PricePoint Num
  price_point r = record {
    venue = r.venue;
    base = r.base;
    quote = r.quote;
    t_ms = of_u64 r.t_ms;
    price = r.price;
  }

  unfoldable pub rate_point : RateRow Num → RatePoint Num
  rate_point r = record { venue = r.venue; source = r.source; t_ms = of_u64 r.t_ms; rate = r.rate }

  -- The median and the tail, both zero where the row does not hold two numbers.
  abbrev pub two_quantiles : Num → List Num → Num × Num
  two_quantiles zero_num (a ∷ b ∷ []) = (a, b)
  two_quantiles zero_num other = (zero_num, zero_num)

  unfoldable pub latency_point : Num → LatencyRow Num → LatencyPoint Num
  latency_point zero_num r =
      let (p50, p99) = two_quantiles zero_num r.quantiles in
      record { venue = r.venue; t_ms = of_u64 r.t_ms; p50 = p50; p99 = p99 }

  -- The three methods; `ask` is the database.
  unfoldable pub price_history :
      (SeriesQuery → Answer (PriceRow Num))
      → Time
      → Time
      → ℕ
      → Result StatsError (List (PricePoint Num))
  unfolding points_of series_query price_point
  price_history ask from to bucket_sec =
      points_of price_point (ask (series_query from to bucket_sec))

  unfoldable pub latency_history :
      Num
      → (SeriesQuery → Answer (LatencyRow Num))
      → Time
      → Time
      → ℕ
      → Result StatsError (List (LatencyPoint Num))
  unfolding points_of series_query latency_point
  latency_history zero_num ask from to bucket_sec =
      points_of (latency_point zero_num) (ask (series_query from to bucket_sec))

  unfoldable pub throughput_history :
      (SeriesQuery → Answer (RateRow Num))
      → Time
      → Time
      → ℕ
      → Result StatsError (List (RatePoint Num))
  unfolding points_of series_query rate_point
  throughput_history ask from to bucket_sec =
      points_of rate_point (ask (series_query from to bucket_sec))
