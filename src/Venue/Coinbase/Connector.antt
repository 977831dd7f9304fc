-- ===== src/Venue/Coinbase/Connector.antt =====
-- internal/venue/coinbase/coinbase.go and book.go: both connectors with their subscriptions.
use tickstore.Prelude.{Bytes, List, [], codes, false, ℕ, ◌*◌, ◌^◌, ◌∷◌}
use tickstore.Venue.Connection.{Feed, Ran, Visit, run}
use tickstore.Venue.Feed.{FeedLog, Ports, start_log}
use tickstore.Venue.Coinbase.{Decoder, backoff_high, backoff_low, session}
use tickstore.Venue.Coinbase.Books.{BookLog, Level2Decoder}
use tickstore.Venue.Coinbase.Books

abbrev pub feed_url : Bytes
feed_url = codes "wss://ws-feed.exchange.coinbase.com"

abbrev pub read_limit : ℕ
read_limit = 8 * 2 ^ 20

pub record SubscribeRequest : Type 0 where
  pub kind : Bytes
  pub product_ids : List Bytes
  pub channels : List Bytes

abbrev pub subscribe_to : List Bytes → List Bytes → SubscribeRequest
subscribe_to symbols channels = record {
  kind = codes "subscribe";
  product_ids = symbols;
  channels = channels;
}

unfoldable pub trade_feed : Decoder → List Bytes → Feed SubscribeRequest FeedLog
unfolding session
trade_feed d symbols = record {
  url = feed_url;
  read_limit = read_limit;
  requests = subscribe_to symbols (codes "matches" ∷ codes "heartbeat" ∷ []) ∷ [];
  pings = false;
  read = session d;
  idle = start_log;
  got_data = λ log. log.got_data;
  panics = λ log. false;
}

unfoldable pub run_trades : Decoder → List Bytes → List Visit → Ran SubscribeRequest FeedLog
unfolding trade_feed run
run_trades d symbols = run (trade_feed d symbols) backoff_low backoff_high backoff_low

abbrev pub no_books : BookLog
no_books = record {
  books = [];
  effects = [];
  messages = 0;
  parse_errors = 0;
  got_data = false;
  rejected = false;
}

unfoldable pub book_feed : Ports → Level2Decoder → List Bytes → Feed SubscribeRequest BookLog
unfolding Books.session
book_feed p d symbols = record {
  url = feed_url;
  read_limit = read_limit;
  requests = subscribe_to symbols (codes "level2_batch" ∷ []) ∷ [];
  pings = false;
  read = λ frames. Books.session p d frames no_books;
  idle = no_books;
  got_data = λ log. log.got_data;
  panics = λ log. false;
}

unfoldable pub run_level2 :
    Ports → Level2Decoder → List Bytes → List Visit → Ran SubscribeRequest BookLog
unfolding book_feed run
run_level2 p d symbols = run (book_feed p d symbols) backoff_low backoff_high backoff_low
