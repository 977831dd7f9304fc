-- ===== src/Dashboard.antt =====
-- internal/dashboard/server.go: the handlers of the dashboard, over the registry and the database's
-- answers. A body is what is encoded as JSON.
pub mod Range
pub mod Stream
pub mod Delivery
pub mod Window
mod Examples
use tickstore.Prelude.{
  Bool, Bytes, List, Option, Result, [], bytes_eq, codes, err, false, if◌then◌else◌, int_eq, ltb_ℤ,
  nat_eq, neg_ℤ, none, ok, pos, some, true, u64_mod, ℕ, ℤ, ◌%◌, ◌*◌, ◌+ℤ◌, ◌+◌, ◌==◌, ◌>>=◌, ◌>>◌,
  ◌∷◌,
}
use tickstore.Norm.{Time}
use tickstore.Norm.Decimal.{parse_int}
use tickstore.Live.{Registry}
use tickstore.Live.Quotes.{DepthRow, Floats, Quote, market_depth, quotes}
use tickstore.Sink.Stats.{
  Answer, FeedRow, StatsError, TableStat, TradeRow, recent_trades, table_stats,
}
use tickstore.Sink.Stats.History.{
  LatencyRow, PricePoint, PriceRow, RateRow, SeriesQuery, price_history,
}

abbrev pub feed_limit : ℕ
feed_limit = 200

-- One second of a `time.Duration`.
abbrev pub second : ℕ
second = 1_000_000_000

-- What a handler writes: a body, the page, or an error with its status.
pub data Response (B : Type 0) : Type 0 where
  json : B → Response B
  page : Response B
  not_found bad_range query_failed no_streaming : Response B

-- `h.fail` where the store fails.
abbrev pub respond : {A B : Type 0} → (A → B) → Result StatsError A → Response B
respond body (ok a) = json (body a)
respond body (err e) = query_failed

-- The answers of the database while a request is served; `Num` is `float64`.
pub record Store (Num : Type 0) : Type 0 where
  pub table_answer : Answer TableStat
  pub trades_answer : ℤ → ℕ → Answer TradeRow
  pub price_answer : SeriesQuery → Answer (PriceRow Num)
  pub latency_answer : SeriesQuery → Answer (LatencyRow Num)
  pub rate_answer : SeriesQuery → Answer (RateRow Num)

unfoldable pub index : Bytes → Response (Unit {0})
index path = if path == codes "/" then page else not_found

-- The number of a query parameter, 0 where it is absent, malformed or negative.
unfoldable pub query_int : Bytes → ℤ
query_int text = elim (parse_int text) [
  | none ↦ pos 0
  | some n ↦ if ltb_ℤ n (pos 0) then pos 0 else n
]

-- The window of the last three minutes.
abbrev pub live_from : Time → Time
live_from to = to +ℤ neg_ℤ (pos (180 * second))

pub record StatsBody : Type 0 where
  pub tables : List TableStat
  pub total_rows : ℕ
  pub total_bytes : ℕ
  pub server_time : Bytes

-- The loop of the totals, which are `uint64`.
unfoldable pub add_totals : List TableStat → ℕ → ℕ → ℕ × ℕ
add_totals [] total_rows total_bytes = (total_rows, total_bytes)
add_totals (t ∷ ts) total_rows total_bytes =
    add_totals ts ((total_rows + t.rows) % u64_mod) ((total_bytes + t.bytes) % u64_mod)

-- `clock` is the layout "15:04:05" of a time.
module _ (f : Floats) (clock : Time → Bytes) where
  open f use {Num}

  unfoldable pub build_stats : Store Num → Time → Result StatsError StatsBody
  unfolding add_totals
  build_stats store now = do
    tables ← table_stats store.table_answer
    let totals = add_totals tables 0 0
    ok (record {
      tables = tables;
      total_rows = totals.0;
      total_bytes = totals.1;
      server_time = clock now;
    })

  unfoldable pub stats : Store Num → Time → Response StatsBody
  unfolding build_stats
  stats store now = respond (λ body. body) (build_stats store now)

  unfoldable pub tape : Store Num → Bytes → Response (List FeedRow)
  unfolding query_int
  tape store ts =
      respond (λ body. body) (recent_trades clock (store.trades_answer (query_int ts) feed_limit))

  unfoldable pub book : Registry → Time → Response (List (Quote f))
  book reg now = json (quotes f reg now)

  pub record DepthBody : Type 0 where
    pub venue : Bytes
    pub symbol : Bytes
    pub bids : List (DepthRow f)
    pub asks : List (DepthRow f)
    pub found : Bool

  abbrev depth_body : Bytes → Bytes → Option (List (DepthRow f) × List (DepthRow f)) → DepthBody
  depth_body venue symbol none = record {
    venue = venue;
    symbol = symbol;
    bids = [];
    asks = [];
    found = false;
  }
  depth_body venue symbol (some (bids, asks)) = record {
    venue = venue;
    symbol = symbol;
    bids = bids;
    asks = asks;
    found = true;
  }

  unfoldable pub depth : Registry → Bytes → Bytes → Response DepthBody
  depth reg venue symbol = json (depth_body venue symbol (market_depth f reg venue symbol))

  unfoldable pub price_chart : Store Num → Time → Response (List (PricePoint Num))
  price_chart store to =
      respond (λ points. points) (price_history store.price_answer (live_from to) to 2)
