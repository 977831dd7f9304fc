-- ===== src/Venue/Kraken.antt =====
-- internal/venue/kraken/parse.go and the read loop of kraken.go: Kraken's trade feed.
pub mod Connector
pub mod Checksum
pub mod Books
pub mod BookFeed
pub mod Normalized
mod Examples
pub mod Stored
pub mod Quiet
pub mod Checked
pub mod Numbers
pub mod Gaps
use tickstore.Prelude.{
  Bool, Bytes, List, Option, Result, [], bytes_eq, codes, err, false, if◌then◌else◌, int_eq, ltb_ℤ,
  nat_eq, none, not, ok, or_fail, pos, require, some, true, wrap_error, ℤ, ◌==◌, ◌>>=◌, ◌>>◌, ◌∷◌,
}
use tickstore.Norm.{Side, Time, Trade, buy, price_decimals, sell, size_decimals}
use tickstore.Norm.Decimal.{format_int}
use tickstore.Norm.Fixed.{FixedError, parse_fixed}
use tickstore.Venue.Feed.{FeedLog, read_loop, start_log}

abbrev pub name : Bytes
name = codes "kraken"

pub record Envelope : Type 0 where
  pub channel : Bytes
  pub kind : Bytes
  pub method : Bytes
  pub success : Option Bool
  pub payload : Bytes

pub record WireTrade : Type 0 where
  pub symbol : Bytes
  pub side : Bytes
  pub price : Bytes
  pub qty : Bytes
  pub trade_id : ℤ
  pub timestamp : Bytes

pub data TradeError : Type 0 where
  bad_json venue_error missing_symbol unexpected_side : TradeError
  bad_price bad_size : FixedError → TradeError
  non_positive_price non_positive_size bad_time : TradeError

-- `json.Unmarshal` into the two shapes, and `time.Parse` of RFC 3339 text.
pub record Decoder : Type 0 where
  pub envelope : Bytes → Option Envelope
  pub trades : Bytes → Option (List WireTrade)
  pub time : Bytes → Option Time

unfoldable pub taker_side : Bytes → Result TradeError Side
taker_side s =
    if s == codes "buy" then ok buy else if s == codes "sell" then ok sell else err unexpected_side

-- `e.Success != nil && !*e.Success`
abbrev pub said_no : Option Bool → Bool
said_no none = false
said_no (some b) = not b

abbrev pub is_venue_error : TradeError → Bool
is_venue_error venue_error = true
is_venue_error _ = false

module _ (d : Decoder) where
  unfoldable pub normalize_trade : WireTrade → Time → Result TradeError Trade
  unfolding taker_side
  normalize_trade w ts_received = do
    require (not (w.symbol == [])) missing_symbol
    side ← taker_side w.side
    price ← wrap_error bad_price (parse_fixed w.price (pos price_decimals))
    require (ltb_ℤ (pos 0) price) non_positive_price
    size ← wrap_error bad_size (parse_fixed w.qty (pos size_decimals))
    require (ltb_ℤ (pos 0) size) non_positive_size
    ts ← or_fail bad_time (d.time w.timestamp)
    ok (record {
      venue = name;
      symbol = w.symbol;
      ts_exchange = ts;
      ts_received = ts_received;
      price = price;
      size = size;
      side = side;
      trade_id = format_int w.trade_id;
    })

  -- The loop of `parseTrades`: one bad row drops the frame.
  unfoldable pub normalize_all : List WireTrade → Time → Result TradeError (List Trade)
  normalize_all [] ts_received = ok []
  normalize_all (w ∷ ws) ts_received = do
    t ← normalize_trade w ts_received
    ts ← normalize_all ws ts_received
    ok (t ∷ ts)

  unfoldable pub parse_trades : Bytes → Time → Result TradeError (List Trade)
  parse_trades raw ts_received = do
    rows ← or_fail bad_json (d.trades raw)
    normalize_all rows ts_received

  abbrev parse_envelope : Envelope → Time → Result TradeError (List Trade)
  parse_envelope e ts_received =
      if not (e.method == [])
      then if said_no e.success then err venue_error else ok []
      else if e.channel == codes "trade"
      then if e.kind == codes "snapshot" then ok [] else parse_trades e.payload ts_received
      else ok []

  unfoldable pub parse_message : Bytes → Time → Result TradeError (List Trade)
  parse_message raw ts_received = do
    e ← or_fail bad_json (d.envelope raw)
    parse_envelope e ts_received

  unfoldable pub session : List (Bytes × Time) → FeedLog
  unfolding read_loop
  session frames = read_loop parse_message is_venue_error frames start_log
