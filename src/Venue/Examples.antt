-- ===== src/Venue/Examples.antt =====
-- The trade feeds on concrete frames.
use tickstore.Prelude.{
  Bool, Bytes, List, Result, [], codes, err, false, none, ok, pos, refl, some, true, ℕ, ◌∷◌, ◌≡◌,
}
use tickstore.Norm.{Time, Trade}
use tickstore.Venue.Connection.{ended, tick, Feed, Visit, run}
use tickstore.Venue.Sessions.{closes_all, run-closes}
use tickstore.Venue.Feed.{FeedLog, read_loop, start_log}
use tickstore.Venue.Reading.{after, frames_read, read_loop-after}
use tickstore.Venue.AllVenues.{HandsSane, run_trades-HandsSane}
use tickstore.Venue.Kraken
use tickstore.Venue.Kraken.Connector as KrakenConnector
use tickstore.Venue.Okx
use tickstore.Venue.Okx.Connector as OkxConnector
use tickstore.Venue.Coinbase
use tickstore.Venue.Coinbase.Connector as CoinbaseConnector

-- A frame of one byte is empty, one of two does not parse, and any other is a refusal.
abbrev parse_by_length : Bytes → Time → Result Bool (List Trade)
parse_by_length (a ∷ []) now = ok []
parse_by_length (a ∷ b ∷ []) now = err false
parse_by_length _ now = err true

abbrev frames : List (Bytes × Time)
frames = (0 ∷ [], pos 1) ∷ (0 ∷ 0 ∷ [], pos 2) ∷ ([], pos 3) ∷ (0 ∷ [], pos 4) ∷ []

read_loop-after_example :
    read_loop parse_by_length (λ b. b) frames start_log
    ≡ after parse_by_length (λ b. b) start_log (frames_read parse_by_length (λ b. b) frames)
read_loop-after_example = read_loop-after parse_by_length (λ b. b) frames start_log refl

-- Each venue's decoder reads every frame as one and the same trade.
abbrev kraken_decoder : Kraken.Decoder
kraken_decoder = record {
  envelope = λ raw. some (record {
    method = [];
    success = none;
    channel = codes "trade";
    kind = codes "update";
    payload = raw;
  });
  trades = λ raw. some (
      record {
        symbol = codes "BTC/USD";
        side = codes "buy";
        price = codes "100.5";
        qty = codes "0.25";
        trade_id = pos 7;
        timestamp = codes "now";
      }
      ∷ []);
  time = λ text. some (pos 9);
}

abbrev okx_decoder : Okx.Decoder
okx_decoder = record {
  envelope = λ raw. some (record {
    event = [];
    arg = record { channel = codes "trades"; inst_id = codes "BTC-USDT" };
    action = [];
    payload = raw;
  });
  trades = λ raw. some (
      record {
        inst_id = codes "BTC-USDT";
        trade_id = codes "7";
        px = codes "100.5";
        sz = codes "0.25";
        side = codes "buy";
        ts = codes "9";
      }
      ∷ []);
}

abbrev coinbase_decoder : Coinbase.Decoder
coinbase_decoder = record {
  message = λ raw. some (record {
    kind = codes "match";
    product_id = codes "BTC-USD";
    trade_id = pos 7;
    side = codes "sell";
    price = codes "100.5";
    size = codes "0.25";
    time = codes "now";
  });
  time = λ text. some (pos 9);
}

-- A connection with two frames, one that does not come up, and one whose request is not written.
abbrev visits : List Visit
visits = visit true 1 ∷ visit false 1 ∷ visit true 0 ∷ []
  where
    visit : Bool → ℕ → Visit
    visit dials writes = record {
      line = record {
        dials = dials;
        writes = writes;
        frames = frames;
        reading = tick true ∷ tick true ∷ [];
        stopped = [];
        closed = tick true ∷ ended ∷ [];
      };
      cancelled = false;
      draw = 5;
      cancelled_asleep = false;
    }

abbrev symbols : List Bytes
symbols = codes "BTC" ∷ []

run_trades-HandsSane_example :
    HandsSane Kraken.name (KrakenConnector.run_trades kraken_decoder symbols visits)
    × HandsSane Okx.name (OkxConnector.run_trades okx_decoder symbols visits)
    × HandsSane Coinbase.name (CoinbaseConnector.run_trades coinbase_decoder symbols visits)
run_trades-HandsSane_example =
    run_trades-HandsSane kraken_decoder okx_decoder coinbase_decoder symbols visits

abbrev okx_feed : Feed OkxConnector.SubscribeRequest FeedLog
okx_feed = OkxConnector.trade_feed okx_decoder symbols

run-closes_example : closes_all false (run okx_feed 10 60 10 visits).calls ≡ true
run-closes_example = run-closes okx_feed 10 60 10 visits
