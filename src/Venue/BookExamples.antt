-- ===== src/Venue/BookExamples.antt =====
-- The book connectors on a connection with two frames, and on one that does not come up.
use tickstore.Prelude.{
  All, Bool, List, [], arith, codes, false, neg_ℤ, none, pos, quot_ℤ, some, true, wrap64, ◌*ℤ◌,
  ◌+ℤ◌, ◌∷◌,
}
use tickstore.Venue.Feed.{Ports}
use tickstore.Prelude.{map, refl, ◌≡◌}
use tickstore.Venue.Reconnect.Backoff.{AllBelow, limits, some_cancelled}
use tickstore.Venue.Sessions.{IsCalm, round_of, run-backs_off}
use tickstore.Venue.Connection.{session, Feed, Visit, run, tick}
use tickstore.Venue.AllBooks.{CoinbaseLinked, Fits, KrakenLinked, OkxLinked, run_books-linked}
use tickstore.Venue.Kraken.BookFeed as KrakenFeed
use tickstore.Venue.Kraken.Connector as KrakenConnector
use tickstore.Venue.Kraken.Gaps as KrakenGaps
use tickstore.Venue.Kraken.Numbers as KrakenNumbers
use tickstore.Venue.Okx.BookFeed as OkxFeed
use tickstore.Venue.Okx.Connector as OkxConnector
use tickstore.Venue.Okx.Gaps as OkxGaps
use tickstore.Venue.Okx.Numbers as OkxNumbers
use tickstore.Venue.Coinbase.Books as CoinbaseBooks
use tickstore.Venue.Coinbase.Connector as CoinbaseConnector
use tickstore.Venue.Coinbase.Gaps as CoinbaseGaps
use tickstore.Venue.Coinbase.Sequence as CoinbaseSequence
use tickstore.Norm.Fixed.{parse_fixed}

abbrev all_ports : Ports
all_ports = record { has_sink = true; has_observer = true }

-- The text of a frame is its kind; each decoder reads the same row from it.
abbrev kraken_decoder : KrakenFeed.BookDecoder
kraken_decoder = record {
  envelope = λ s.
      some (record { channel = codes "book"; kind = s; method = []; success = none; payload = [] });
  pairs = λ s. none;
  rows = λ s. some (
      record {
        symbol = codes "BTC";
        bids = record { price = codes "45283.5"; qty = codes "0.1" } ∷ [];
        asks = record { price = codes "45285.2"; qty = codes "0.001" } ∷ [];
        checksum = 0;
        timestamp = [];
      }
      ∷ []);
  time = λ s. none;
}

abbrev okx_decoder : OkxFeed.BookDecoder
okx_decoder = record {
  envelope = λ s. some (record {
    event = [];
    arg = record { channel = codes "books"; inst_id = codes "BTC" };
    action = s;
    payload = 0 ∷ [];
  });
  rows = λ s. some (
      record {
        asks = [];
        bids = (codes "100" ∷ codes "1" ∷ []) ∷ [];
        ts = codes "0";
        seq_id = pos 10;
        prev_seq_id = pos 10;
      }
      ∷ []);
}

abbrev coinbase_decoder : CoinbaseBooks.Level2Decoder
coinbase_decoder = record {
  message = λ s. some (record {
    kind = s;
    product_id = codes "BTC";
    time = [];
    bids = (codes "100", codes "1") ∷ [];
    asks = [];
    changes = (codes "buy", codes "99", codes "2") ∷ [];
  });
  time = λ s. none;
}

abbrev visit : Bool → Visit
visit dials = record {
  line = record {
    dials = dials;
    writes = 2;
    frames = (codes "snapshot", pos 1) ∷ (codes "l2update", pos 2) ∷ [];
    reading = tick true ∷ [];
    stopped = [];
    closed = [];
  };
  cancelled = false;
  draw = 5;
  cancelled_asleep = false;
}

abbrev visits : List Visit
visits = visit true ∷ visit false ∷ []

kraken-Fits : Fits (KrakenGaps.frames_load all_ports kraken_decoder) visits
unfolding KrakenGaps.frames_load KrakenNumbers.rows_load
kraken-Fits = (omega arith, (omega arith, tt))

okx-Fits : Fits (OkxGaps.frames_load all_ports okx_decoder) visits
unfolding OkxGaps.frames_load OkxNumbers.rows_load
okx-Fits = (omega arith, (omega arith, tt))

coinbase-Fits : Fits (CoinbaseGaps.frames_load coinbase_decoder) visits
unfolding CoinbaseGaps.frames_of CoinbaseSequence.load CoinbaseBooks.parse_level2
    CoinbaseBooks.level2_updates CoinbaseBooks.level2_snapshot CoinbaseBooks.parse_changes
    CoinbaseBooks.parse_levels CoinbaseBooks.book_side parse_fixed wrap64 quot_ℤ ◌+ℤ◌ ◌*ℤ◌ neg_ℤ
coinbase-Fits = (omega arith, (omega arith, tt))

run_books-linked_example :
    All KrakenLinked
      (KrakenConnector.run_books all_ports kraken_decoder (codes "BTC" ∷ []) visits).logs
    × All OkxLinked (OkxConnector.run_books all_ports okx_decoder (codes "BTC" ∷ []) visits).logs
    × All CoinbaseLinked
        (CoinbaseConnector.run_level2 all_ports coinbase_decoder (codes "BTC" ∷ []) visits).logs
run_books-linked_example =
    run_books-linked all_ports kraken_decoder okx_decoder coinbase_decoder (codes "BTC" ∷ []) visits
      kraken-Fits okx-Fits coinbase-Fits

-- Kraken's book feed on frames whose rows do not decode.
abbrev unread_books : Feed KrakenConnector.SubscribeRequest KrakenFeed.BookLog
unread_books =
    KrakenConnector.book_feed all_ports (record kraken_decoder { rows = λ s. none })
      (codes "BTC" ∷ [])

visits-IsCalm : All (IsCalm unread_books 10 60) (run unread_books 10 60 10 visits).logs
unfolding KrakenConnector.book_feed run session KrakenFeed.session
visits-IsCalm = (refl, (refl, tt))

run-backs_off_example :
    AllBelow
      (run unread_books 10 60 10 visits).sleeps
      (limits 10 60 0 (map (round_of unread_books 10 60) visits))
    × ((run unread_books 10 60 10 visits).returned
        ≡ some_cancelled (map (round_of unread_books 10 60) visits))
run-backs_off_example =
    run-backs_off unread_books 10 60 0 visits (omega arith) (omega arith) visits-IsCalm
