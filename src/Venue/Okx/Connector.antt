-- ===== src/Venue/Okx/Connector.antt =====
-- internal/venue/okx/okx.go and book.go: both connectors with their subscriptions.
use tickstore.Prelude.{Bytes, List, [], codes, false, none, true, ℕ, ◌*◌, ◌^◌, ◌∷◌}
use tickstore.Venue.Connection.{Feed, Ran, Visit, run}
use tickstore.Venue.Feed.{FeedLog, Ports, start_log}
use tickstore.Venue.Reconnect.{backoff_max, backoff_min}
use tickstore.Venue.Okx.{ArgInfo, Decoder, session}
use tickstore.Venue.Okx.BookFeed.{BookDecoder, BookLog}
use tickstore.Venue.Okx.BookFeed

abbrev pub feed_url : Bytes
feed_url = codes "wss://ws.okx.com:8443/ws/v5/public"

abbrev pub read_limit : ℕ
read_limit = 32 * 2 ^ 20

pub record SubscribeRequest : Type 0 where
  pub op : Bytes
  pub args : List ArgInfo

abbrev pub args_of : Bytes → List Bytes → List ArgInfo
args_of channel [] = []
args_of channel (s ∷ symbols) = record { channel = channel; inst_id = s } ∷ args_of channel symbols

-- One request for all symbols. (`json.Marshal` does not fail on its type.)
unfoldable pub subscribe : Bytes → List Bytes → List SubscribeRequest
subscribe channel symbols = record { op = codes "subscribe"; args = args_of channel symbols } ∷ []

unfoldable pub trade_feed : Decoder → List Bytes → Feed SubscribeRequest FeedLog
unfolding subscribe session
trade_feed d symbols = record {
  url = feed_url;
  read_limit = read_limit;
  requests = subscribe (codes "trades") symbols;
  pings = true;
  read = session d;
  idle = start_log;
  got_data = λ log. log.got_data;
  panics = λ log. false;
}

unfoldable pub run_trades : Decoder → List Bytes → List Visit → Ran SubscribeRequest FeedLog
unfolding trade_feed run
run_trades d symbols = run (trade_feed d symbols) backoff_min backoff_max backoff_min

abbrev pub no_books : BookLog
no_books = record {
  books = [];
  effects = [];
  messages = 0;
  parse_errors = 0;
  got_data = false;
  error = none;
}

unfoldable pub book_feed : Ports → BookDecoder → List Bytes → Feed SubscribeRequest BookLog
unfolding subscribe BookFeed.session
book_feed p d symbols = record {
  url = feed_url;
  read_limit = read_limit;
  requests = subscribe (codes "books") symbols;
  pings = true;
  read = λ frames. BookFeed.session p d frames no_books;
  idle = no_books;
  got_data = λ log. log.got_data;
  panics = λ log. false;
}

unfoldable pub run_books :
    Ports → BookDecoder → List Bytes → List Visit → Ran SubscribeRequest BookLog
unfolding book_feed run
run_books p d symbols = run (book_feed p d symbols) backoff_min backoff_max backoff_min
