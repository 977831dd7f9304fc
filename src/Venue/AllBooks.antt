-- ===== src/Venue/AllBooks.antt =====
-- The book connectors of the three venues of internal/venue, over all their sessions.
use tickstore.Prelude.{
  bytes_eq, All, AllValues, Bytes, List, arith, true, u64_mod, ℕ, ◌+◌, ◌<◌, ◌≡◌,
}
use tickstore.Norm.{Time}
use tickstore.Venue.Feed.{Ports}
use tickstore.Venue.Connection.{Visit}
use tickstore.Venue.Everywhere.{All-weaken, run-All}
use tickstore.Venue.Coinbase.{backoff_high, backoff_low}
use tickstore.Venue.Reconnect.{backoff_max, backoff_min}
use tickstore.Venue.Kraken.Books as KrakenBooks
use tickstore.Venue.Kraken.BookFeed as KrakenFeed
use tickstore.Venue.Kraken.Connector as KrakenConnector
use tickstore.Venue.Kraken.Gaps as KrakenGaps
use tickstore.Venue.Okx.Books as OkxBooks
use tickstore.Venue.Okx.BookFeed as OkxFeed
use tickstore.Venue.Okx.Connector as OkxConnector
use tickstore.Venue.Okx.Gaps as OkxGaps
use tickstore.Venue.Coinbase.Books as CoinbaseBooks
use tickstore.Venue.Coinbase.Connector as CoinbaseConnector
use tickstore.Venue.Coinbase.Gaps as CoinbaseGaps

-- The engine counts no gap in any book of the session, and a synced book stands at the last number.
abbrev pub KrakenLinked : KrakenFeed.BookLog → Type 0
KrakenLinked log =
    AllValues
      (λ (sb : KrakenBooks.SeqBook).
        (sb.book.gaps ≡ 0) × (sb.book.synced ≡ true → sb.book.last_seq ≡ sb.seq))
      log.session.books

abbrev pub OkxLinked : OkxFeed.BookLog → Type 0
OkxLinked log =
    AllValues
      (λ (sb : OkxBooks.SeqBook).
        (sb.book.gaps ≡ 0) × (sb.book.synced ≡ true → sb.book.last_seq ≡ sb.engine_seq))
      log.books

abbrev pub CoinbaseLinked : CoinbaseBooks.BookLog → Type 0
CoinbaseLinked log =
    AllValues
      (λ (sb : CoinbaseBooks.SeqBook).
        (sb.book.gaps ≡ 0) × (sb.book.synced ≡ true → sb.book.last_seq ≡ sb.seq))
      log.books

-- No session reads so much that its numbers come near 2^64.
abbrev pub Fits : (List (Bytes × Time) → ℕ) → List Visit → Type 0
Fits load vs = All (λ v. load v.line.frames + 2 < u64_mod) vs

run_books-KrakenLinked :
    (p : Ports) (d : KrakenFeed.BookDecoder) (symbols : List Bytes) (vs : List Visit)
    → Fits (KrakenGaps.frames_load p d) vs
    → All KrakenLinked (KrakenConnector.run_books p d symbols vs).logs
unfolding KrakenConnector.run_books KrakenConnector.book_feed
run_books-KrakenLinked p d symbols vs fits =
    run-All KrakenLinked (KrakenConnector.book_feed p d symbols) backoff_min backoff_max tt
      backoff_min vs
      (All-weaken (λ v. KrakenGaps.frames_load p d v.line.frames + 2 < u64_mod)
        (λ v. KrakenLinked (KrakenFeed.session p d v.line.frames KrakenConnector.no_books)) vs
        (λ v small. KrakenGaps.session-no_gaps p d v.line.frames small) fits)

run_books-OkxLinked :
    (p : Ports) (d : OkxFeed.BookDecoder) (symbols : List Bytes) (vs : List Visit)
    → Fits (OkxGaps.frames_load p d) vs
    → All OkxLinked (OkxConnector.run_books p d symbols vs).logs
unfolding OkxConnector.run_books OkxConnector.book_feed
run_books-OkxLinked p d symbols vs fits =
    run-All OkxLinked (OkxConnector.book_feed p d symbols) backoff_min backoff_max tt backoff_min vs
      (All-weaken (λ v. OkxGaps.frames_load p d v.line.frames + 2 < u64_mod)
        (λ v. OkxLinked (OkxFeed.session p d v.line.frames OkxConnector.no_books)) vs
        (λ v small. OkxGaps.session-gaps p d v.line.frames small) fits)

run_level2-CoinbaseLinked :
    (p : Ports) (d : CoinbaseBooks.Level2Decoder) (symbols : List Bytes) (vs : List Visit)
    → Fits (CoinbaseGaps.frames_load d) vs
    → All CoinbaseLinked (CoinbaseConnector.run_level2 p d symbols vs).logs
unfolding CoinbaseConnector.run_level2 CoinbaseConnector.book_feed
run_level2-CoinbaseLinked p d symbols vs fits =
    run-All CoinbaseLinked (CoinbaseConnector.book_feed p d symbols) backoff_low backoff_high tt
      backoff_low vs
      (All-weaken (λ v. CoinbaseGaps.frames_load d v.line.frames + 2 < u64_mod)
        (λ v. CoinbaseLinked (CoinbaseBooks.session p d v.line.frames CoinbaseConnector.no_books))
        vs (λ v small. CoinbaseGaps.session-gaps p d v.line.frames (omega (arith, small))) fits)

-- Over all sessions of the Kraken, the OKX and the Coinbase book connector, whatever frames arrive
-- (fewer than 2^64 - 2 rows and levels in a session) and however each session ends: the engine has
-- counted no gap in any book of the session, and a synced book stands at the number that the connector
-- gave last.
pub run_books-linked :
    (p : Ports) (d_kraken : KrakenFeed.BookDecoder) (d_okx : OkxFeed.BookDecoder)
    (d_coinbase : CoinbaseBooks.Level2Decoder) (symbols : List Bytes) (vs : List Visit)
    → Fits (KrakenGaps.frames_load p d_kraken) vs
    → Fits (OkxGaps.frames_load p d_okx) vs
    → Fits (CoinbaseGaps.frames_load d_coinbase) vs
    → All KrakenLinked (KrakenConnector.run_books p d_kraken symbols vs).logs
      × All OkxLinked (OkxConnector.run_books p d_okx symbols vs).logs
      × All CoinbaseLinked (CoinbaseConnector.run_level2 p d_coinbase symbols vs).logs
run_books-linked p d_kraken d_okx d_coinbase symbols vs k o c = (
  run_books-KrakenLinked p d_kraken symbols vs k,
  run_books-OkxLinked p d_okx symbols vs o,
  run_level2-CoinbaseLinked p d_coinbase symbols vs c,
)
