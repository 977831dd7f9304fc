-- ===== src/Venue/Kraken/Connector.antt =====
-- internal/venue/kraken/kraken.go and book.go: both connectors with their subscriptions.
use tickstore.Prelude.{
  Bool, Bytes, List, Option, [], codes, false, none, some, true, ℕ, ◌*◌, ◌^◌, ◌∷◌,
}
use tickstore.Venue.Connection.{Feed, Ran, Visit, run}
use tickstore.Venue.Feed.{FeedLog, Ports, start_log}
use tickstore.Venue.Reconnect.{backoff_max, backoff_min}
use tickstore.Venue.Kraken.{Decoder, session}
use tickstore.Venue.Kraken.Books.{BookError, book_depth, index_panic}
use tickstore.Venue.Kraken.BookFeed.{BookDecoder, BookLog}
use tickstore.Venue.Kraken.BookFeed

abbrev pub feed_url : Bytes
feed_url = codes "wss://ws.kraken.com/v2"

abbrev pub read_limit : ℕ
read_limit = 16 * 2 ^ 20

abbrev pub book_read_limit : ℕ
book_read_limit = 32 * 2 ^ 20

-- An empty list, a depth of 0 and a missing snapshot are left out of the text.
pub record SubscribeRequest : Type 0 where
  pub method : Bytes
  pub channel : Bytes
  pub symbol : List Bytes
  pub depth : ℕ
  pub snapshot : Option Bool

abbrev pub subscribe_to : Bytes → List Bytes → ℕ → Option Bool → SubscribeRequest
subscribe_to channel symbols depth snapshot = record {
  method = codes "subscribe";
  channel = channel;
  symbol = symbols;
  depth = depth;
  snapshot = snapshot;
}

-- The recent trades are not asked for.
unfoldable pub trade_feed : Decoder → List Bytes → Feed SubscribeRequest FeedLog
unfolding session
trade_feed d symbols = record {
  url = feed_url;
  read_limit = read_limit;
  requests = subscribe_to (codes "trade") symbols 0 (some false) ∷ [];
  pings = false;
  read = session d;
  idle = start_log;
  got_data = λ log. log.got_data;
  panics = λ log. false;
}

unfoldable pub run_trades : Decoder → List Bytes → List Visit → Ran SubscribeRequest FeedLog
unfolding trade_feed run
run_trades d symbols = run (trade_feed d symbols) backoff_min backoff_max backoff_min

abbrev pub no_books : BookLog
no_books = record {
  session = record { precisions = []; books = [] };
  effects = [];
  messages = 0;
  parse_errors = 0;
  got_data = false;
  error = none;
}

abbrev pub is_panic : Option BookError → Bool
is_panic (some index_panic) = true
is_panic _ = false

-- The precisions of the pairs are asked for first.
unfoldable pub book_feed : Ports → BookDecoder → List Bytes → Feed SubscribeRequest BookLog
unfolding BookFeed.session
book_feed p d symbols = record {
  url = feed_url;
  read_limit = book_read_limit;
  requests =
      subscribe_to (codes "instrument") [] 0 none
      ∷ subscribe_to (codes "book") symbols book_depth none
      ∷ [];
  pings = false;
  read = λ frames. BookFeed.session p d frames no_books;
  idle = no_books;
  got_data = λ log. log.got_data;
  panics = λ log. is_panic log.error;
}

unfoldable pub run_books :
    Ports → BookDecoder → List Bytes → List Visit → Ran SubscribeRequest BookLog
unfolding book_feed run
run_books p d symbols = run (book_feed p d symbols) backoff_min backoff_max backoff_min
