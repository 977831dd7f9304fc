-- ===== src/Venue/Okx.antt =====
-- internal/venue/okx/parse.go and the read loop of okx.go: OKX's trade feed.
pub mod Connector
pub mod Books
pub mod BookFeed
pub mod Normalized
mod Examples
pub mod Linked
pub mod Numbers
pub mod Gaps
use mathlib.Core.Option
use tickstore.Prelude.{
  Bool, Bytes, List, Option, Result, [], bytes_eq, codes, err, false, if◌then◌else◌, int_eq, ltb_ℤ,
  map, nat_eq, not, ok, or_fail, pos, require, true, wrap_error, ◌*ℤ◌, ◌==◌, ◌>>=◌, ◌>>◌, ◌||◌, ◌∷◌,
}
use tickstore.Norm.{Side, Time, Trade, buy, price_decimals, sell, size_decimals}
use tickstore.Norm.Decimal.{parse_int}
use tickstore.Norm.Fixed.{FixedError, parse_fixed}
use tickstore.Venue.Feed.{FeedLog, read_loop, start_log}

abbrev pub name : Bytes
name = codes "okx"

pub record ArgInfo : Type 0 where
  pub channel : Bytes
  pub inst_id : Bytes

pub record Envelope : Type 0 where
  pub event : Bytes
  pub arg : ArgInfo
  pub action : Bytes
  pub payload : Bytes

pub record WireTrade : Type 0 where
  pub inst_id : Bytes
  pub trade_id : Bytes
  pub px : Bytes
  pub sz : Bytes
  pub side : Bytes
  pub ts : Bytes

pub data TradeError : Type 0 where
  bad_json venue_error missing_inst_id unexpected_side : TradeError
  bad_price bad_size : FixedError → TradeError
  non_positive_price non_positive_size bad_time : TradeError

-- `json.Unmarshal` into the two shapes.
pub record Decoder : Type 0 where
  pub envelope : Bytes → Option Envelope
  pub trades : Bytes → Option (List WireTrade)

-- `time.UnixMilli` of a millisecond epoch.
unfoldable pub parse_millis : Bytes → Option Time
parse_millis s = Option.map (λ ms. ms *ℤ pos 1_000_000) (parse_int s)

unfoldable pub taker_side : Bytes → Result TradeError Side
taker_side s =
    if s == codes "buy" then ok buy else if s == codes "sell" then ok sell else err unexpected_side

unfoldable pub normalize_trade : WireTrade → Time → Result TradeError Trade
unfolding taker_side parse_millis
normalize_trade w ts_received = do
  require (not (w.inst_id == [])) missing_inst_id
  side ← taker_side w.side
  price ← wrap_error bad_price (parse_fixed w.px (pos price_decimals))
  require (ltb_ℤ (pos 0) price) non_positive_price
  size ← wrap_error bad_size (parse_fixed w.sz (pos size_decimals))
  require (ltb_ℤ (pos 0) size) non_positive_size
  ts ← or_fail bad_time (parse_millis w.ts)
  ok (record {
    venue = name;
    symbol = w.inst_id;
    ts_exchange = ts;
    ts_received = ts_received;
    price = price;
    size = size;
    side = side;
    trade_id = w.trade_id;
  })

-- The loop of `parseTrades`: one bad row drops the frame.
unfoldable pub normalize_all : List WireTrade → Time → Result TradeError (List Trade)
normalize_all [] ts_received = ok []
normalize_all (w ∷ ws) ts_received = do
  t ← normalize_trade w ts_received
  ts ← normalize_all ws ts_received
  ok (t ∷ ts)

abbrev pub is_venue_error : TradeError → Bool
is_venue_error venue_error = true
is_venue_error _ = false

abbrev pub is_control : Bytes → Bool
is_control event =
    event == codes "subscribe"
    || (event == codes "unsubscribe" || event == codes "channel-conn-count")

module _ (d : Decoder) where
  unfoldable pub parse_trades : Bytes → Time → Result TradeError (List Trade)
  parse_trades raw ts_received = do
    rows ← or_fail bad_json (d.trades raw)
    normalize_all rows ts_received

  abbrev parse_envelope : Envelope → Time → Result TradeError (List Trade)
  parse_envelope e ts_received =
      if e.event == codes "error"
      then err venue_error
      else if is_control e.event
      then ok []
      else if not (e.arg.channel == codes "trades") || e.payload == []
      then ok []
      else parse_trades e.payload ts_received

  unfoldable pub parse_message : Bytes → Time → Result TradeError (List Trade)
  parse_message raw ts_received =
      if raw == codes "pong"
      then ok []
      else (do e ← or_fail bad_json (d.envelope raw); parse_envelope e ts_received)

  unfoldable pub session : List (Bytes × Time) → FeedLog
  unfolding read_loop
  session frames = read_loop parse_message is_venue_error frames start_log
