-- ===== src/Venue/AllVenues.antt =====
-- The trade connectors of the three venues of internal/venue, over all their sessions.
use tickstore.Prelude.{All, Bytes, List}
use tickstore.Venue.Connection.{Visit, Ran}
use tickstore.Venue.Feed.{FeedLog, start_log}
use tickstore.Venue.Everywhere.{All-of, run-All}
use tickstore.Venue.Handed.{IsSane, read_loop-IsSane}
use tickstore.Venue.Handed.Parsers.{kraken-AllSane, okx-AllSane, coinbase-AllSane}
use tickstore.Venue.Coinbase.{backoff_low, backoff_high}
use tickstore.Venue.Reconnect.{backoff_min, backoff_max}
use tickstore.Venue.Kraken
use tickstore.Venue.Kraken.Connector as KrakenConnector
use tickstore.Venue.Okx
use tickstore.Venue.Okx.Connector as OkxConnector
use tickstore.Venue.Coinbase
use tickstore.Venue.Coinbase.Connector as CoinbaseConnector

-- The trades of every session are sane.
abbrev pub HandsSane : {M : Type 0} → Bytes → Ran M FeedLog → Type 0
HandsSane venue ran = All (λ log. All (IsSane venue) log.trades) ran.logs

kraken-HandsSane :
    (d : Kraken.Decoder) (symbols : List Bytes) (vs : List Visit)
    → HandsSane Kraken.name (KrakenConnector.run_trades d symbols vs)
unfolding KrakenConnector.run_trades KrakenConnector.trade_feed Kraken.session
kraken-HandsSane d symbols vs =
    run-All (λ log. All (IsSane Kraken.name) log.trades) (KrakenConnector.trade_feed d symbols)
      backoff_min backoff_max tt backoff_min vs
      (All-of (λ v. All (IsSane Kraken.name) (Kraken.session d v.line.frames).trades) vs
        (λ v.
          read_loop-IsSane (Kraken.parse_message d) Kraken.is_venue_error Kraken.name
            (kraken-AllSane d) v.line.frames start_log tt))

okx-HandsSane :
    (d : Okx.Decoder) (symbols : List Bytes) (vs : List Visit)
    → HandsSane Okx.name (OkxConnector.run_trades d symbols vs)
unfolding OkxConnector.run_trades OkxConnector.trade_feed Okx.session
okx-HandsSane d symbols vs =
    run-All (λ log. All (IsSane Okx.name) log.trades) (OkxConnector.trade_feed d symbols)
      backoff_min backoff_max tt backoff_min vs
      (All-of (λ v. All (IsSane Okx.name) (Okx.session d v.line.frames).trades) vs
        (λ v.
          read_loop-IsSane (Okx.parse_message d) Okx.is_venue_error Okx.name (okx-AllSane d)
            v.line.frames start_log tt))

coinbase-HandsSane :
    (d : Coinbase.Decoder) (symbols : List Bytes) (vs : List Visit)
    → HandsSane Coinbase.name (CoinbaseConnector.run_trades d symbols vs)
unfolding CoinbaseConnector.run_trades CoinbaseConnector.trade_feed Coinbase.session
coinbase-HandsSane d symbols vs =
    run-All (λ log. All (IsSane Coinbase.name) log.trades) (CoinbaseConnector.trade_feed d symbols)
      backoff_low backoff_high tt backoff_low vs
      (All-of (λ v. All (IsSane Coinbase.name) (Coinbase.session d v.line.frames).trades) vs
        (λ v.
          read_loop-IsSane (Coinbase.parse_message d) Coinbase.is_venue_error Coinbase.name
            (coinbase-AllSane d) v.line.frames start_log tt))

-- Whatever frames arrive over whatever connections, every trade that the Kraken, the OKX and the
-- Coinbase connector hand on names its venue, has a symbol, and has a positive price and size.
pub run_trades-HandsSane :
    (d_kraken : Kraken.Decoder) (d_okx : Okx.Decoder) (d_coinbase : Coinbase.Decoder)
    (symbols : List Bytes) (vs : List Visit)
    → HandsSane Kraken.name (KrakenConnector.run_trades d_kraken symbols vs)
      × HandsSane Okx.name (OkxConnector.run_trades d_okx symbols vs)
      × HandsSane Coinbase.name (CoinbaseConnector.run_trades d_coinbase symbols vs)
run_trades-HandsSane d_kraken d_okx d_coinbase symbols vs = (
  kraken-HandsSane d_kraken symbols vs,
  okx-HandsSane d_okx symbols vs,
  coinbase-HandsSane d_coinbase symbols vs,
)
