-- ===== src/Venue/Coinbase.antt =====
-- internal/venue/coinbase/parse.go and coinbase.go: Coinbase's trade feed.
pub mod Connector
pub mod Books
pub mod Normalized
mod Examples
pub mod Sequence
pub mod Gaps
use tickstore.Prelude.{
  Bool, Bytes, List, Option, Result, [], bytes_eq, codes, err, false, if◌then◌else◌, int_eq, ltb_ℤ,
  nat_eq, not, ok, or_fail, pos, require, true, wrap_error, ℕ, ℤ, ◌*◌, ◌==◌, ◌>>=◌, ◌>>◌, ◌||◌, ◌∷◌,
}
use tickstore.Norm.{Side, Time, Trade, buy, price_decimals, sell, size_decimals}
use tickstore.Norm.Decimal.{format_int}
use tickstore.Norm.Fixed.{FixedError, parse_fixed}
use tickstore.Venue.Reconnect.{Round, keep_alive, second}
use tickstore.Venue.Feed.{FeedLog, read_loop, start_log}

abbrev pub name : Bytes
name = codes "coinbase"

pub record WireMessage : Type 0 where
  pub kind : Bytes
  pub product_id : Bytes
  pub trade_id : ℤ
  pub side : Bytes
  pub price : Bytes
  pub size : Bytes
  pub time : Bytes

pub data TradeError : Type 0 where
  bad_json venue_error unexpected_type missing_product_id unexpected_side : TradeError
  bad_price bad_size : FixedError → TradeError
  non_positive_price non_positive_size bad_time : TradeError

-- `json.Unmarshal`, and `time.Parse` of RFC 3339 text.
pub record Decoder : Type 0 where
  pub message : Bytes → Option WireMessage
  pub time : Bytes → Option Time

-- The feed gives the maker's side: a maker's sell is a taker's buy.
unfoldable pub taker_side : Bytes → Result TradeError Side
taker_side s =
    if s == codes "sell" then ok buy else if s == codes "buy" then ok sell else err unexpected_side

abbrev pub is_venue_error : TradeError → Bool
is_venue_error venue_error = true
is_venue_error _ = false

abbrev pub is_skipped : Bytes → Bool
is_skipped kind =
    kind == codes "last_match" || (kind == codes "subscriptions" || kind == codes "heartbeat")

-- `trade != nil`: a list of one trade or of none.
abbrev pub one {ℓ} : {A : Type ℓ} → A → List A
one a = a ∷ []

module _ (d : Decoder) where
  unfoldable pub normalize : WireMessage → Time → Result TradeError Trade
  unfolding taker_side
  normalize m ts_received = do
    require (not (m.product_id == [])) missing_product_id
    side ← taker_side m.side
    price ← wrap_error bad_price (parse_fixed m.price (pos price_decimals))
    require (ltb_ℤ (pos 0) price) non_positive_price
    size ← wrap_error bad_size (parse_fixed m.size (pos size_decimals))
    require (ltb_ℤ (pos 0) size) non_positive_size
    ts ← or_fail bad_time (d.time m.time)
    ok (record {
      venue = name;
      symbol = m.product_id;
      ts_exchange = ts;
      ts_received = ts_received;
      price = price;
      size = size;
      side = side;
      trade_id = format_int m.trade_id;
    })

  abbrev parse_wire : WireMessage → Time → Result TradeError (List Trade)
  parse_wire m ts_received =
      if m.kind == codes "match"
      then (do t ← normalize m ts_received; ok (one t))
      else if is_skipped m.kind
      then ok []
      else if m.kind == codes "error"
      then err venue_error
      else err unexpected_type

  unfoldable pub parse_message : Bytes → Time → Result TradeError (List Trade)
  parse_message raw ts_received = do m ← or_fail bad_json (d.message raw); parse_wire m ts_received

  unfoldable pub session : List (Bytes × Time) → FeedLog
  unfolding read_loop
  session frames = read_loop parse_message is_venue_error frames start_log

abbrev pub backoff_low : ℕ
backoff_low = second

abbrev pub backoff_high : ℕ
backoff_high = 60 * second

-- The connector's own copy of the reconnect loop.
unfoldable pub run : List Round → List ℕ × Bool
unfolding keep_alive
run = keep_alive backoff_low backoff_high backoff_low
