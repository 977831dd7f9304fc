-- ===== src/Dashboard/Stream.antt =====
-- internal/dashboard/server.go: the push channel. The registry changes between its turns, as the
-- connectors record trades and books.
use tickstore.Prelude.{
  Assoc, Bool, Bytes, List, Option, Result, [], bytes_eq, err, if◌then◌else◌, int_eq, ltb_ℤ, nat_eq,
  neg_ℤ, none, ok, pos, some, ℕ, ℤ, ◌%◌, ◌+ℤ◌, ◌+◌, ◌==◌, ◌∷◌,
}
use tickstore.Norm.{Time, Trade}
use tickstore.Book.{Book}
use tickstore.Live.{Registry, TradeRow, latest_trade_id, on_book, on_trade, trades_since}
use tickstore.Live.Quotes.{DepthRow, Floats, Quote, all_depth, quotes}
use tickstore.Sink.Stats.{StatsError}
use tickstore.Sink.Stats.History.{LatencyPoint, RatePoint, latency_history, throughput_history}
use tickstore.Dashboard.{Response, StatsBody, Store, build_stats, json, live_from, no_streaming}

-- How the writing of a payload ends: it cannot be encoded, the client is gone, or it is flushed.
pub data Fate : Type 0 where
  not_encoded client_gone flushed : Fate

-- A new client's cursor, 25 trades behind the latest one.
unfoldable pub seed_cursor : ℤ → ℤ
seed_cursor latest = if ltb_ℤ (pos 25) latest then latest +ℤ neg_ℤ (pos 25) else pos 0

-- A key of the payload is left out where its query fails.
abbrev pub if_ok {ℓ} : {A : Type ℓ} → Result StatsError A → Option A
if_ok (ok a) = some a
if_ok (err e) = none

abbrev pub if_any {ℓ} : {A : Type ℓ} → List A → Option (List A)
if_any [] = none
if_any (x ∷ xs) = some (x ∷ xs)

module _ (f : Floats) where
  open f use {Num, zero_num}

  pub record Payload : Type 0 where
    pub quotes : List (Quote f)
    pub depth : Assoc Bytes (List (DepthRow f) × List (DepthRow f))
    pub trades : Option (List TradeRow)
    pub stats : Option StatsBody
    pub latency : Option (List (LatencyPoint Num))
    pub throughput : Option (List (RatePoint Num))

  -- A turn of the loop: the times that it reads, the answers of the database, and its end.
  pub record Turn : Type 0 where
    pub quotes_at : Time
    pub stats_at : Time
    pub charts_at : Time
    pub store : Store Num
    pub fate : Fate

  -- What happens while a stream is open.
  pub data StreamEvent : Type 0 where
    recorded : Trade → StreamEvent
    booked : Book → Time → StreamEvent
    turn : Turn → StreamEvent

  -- `clock` is the layout "15:04:05" of a time.
  module _ (clock : Time → Bytes) where
    -- The payload of a turn, and the cursor behind it. Every fourth turn asks the database.
    unfoldable pub build_payload : Registry → ℤ → ℕ → Turn → Payload × ℤ
    build_payload reg cursor tick t =
        let (trades, next) = trades_since clock reg cursor 100 in
        let charts = tick % 4 == 0 in
        let from = live_from t.charts_at in
        let payload : Payload = record {
          quotes = quotes f reg t.quotes_at;
          depth = all_depth f reg;
          trades = if_any trades;
          stats = if charts then if_ok (build_stats f clock t.store t.stats_at) else none;
          latency =
              if charts
              then if_ok (latency_history zero_num t.store.latency_answer from t.charts_at 3)
              else none;
          throughput =
              if charts
              then if_ok (throughput_history t.store.rate_answer from t.charts_at 10)
              else none;
        } in
        (payload, next)

    -- The payloads that are flushed, until the client goes or its request ends with the events.
    unfoldable pub stream : List StreamEvent → Registry → ℤ → ℕ → List Payload
    unfolding build_payload
    stream [] reg cursor tick = []
    stream (recorded t ∷ es) reg cursor tick = stream es (on_trade reg t) cursor tick
    stream (booked b now ∷ es) reg cursor tick = stream es (on_book reg b now) cursor tick
    stream (turn t ∷ es) reg cursor tick =
        let (payload, next) = build_payload reg cursor tick t in
        let rest = stream es reg next (tick + 1) in
        elim t.fate [ not_encoded ↦ rest | client_gone ↦ [] | flushed ↦ payload ∷ rest ]

    -- The handler, for a writer that can flush or cannot.
    unfoldable pub open_stream : Bool → Registry → List StreamEvent → Response (List Payload)
    unfolding stream seed_cursor
    open_stream can_flush reg es =
        if can_flush
        then json (stream es reg (seed_cursor (latest_trade_id reg)) 0)
        else no_streaming
