-- ===== src/Venue/Kraken/Examples.antt =====
-- internal/venue/kraken on concrete rows.
use tickstore.Prelude.{
  [], codes, neg_ℤ, none, ok, pos, quot_ℤ, refl, some, true, wrap64, ◌*ℤ◌, ◌+ℤ◌, ◌∷◌, ◌≡◌, ◌⊎◌,
}
use tickstore.Norm.{Trade, buy}
use tickstore.Norm.Fixed.{parse_fixed}
use tickstore.Norm.Decimal.{digits, format_int, format_uint}
use tickstore.Prelude.Tests.{bytes_eq}
use tickstore.Venue.Feed.{Ports}
use tickstore.Venue.Trades.{AllPairs}
use tickstore.Venue.Kraken.{Decoder, WireTrade, normalize_all, normalize_trade}
use tickstore.Venue.Kraken.Books.{BookDataWire, Precision, SeqBook, Step, apply_frame}
use tickstore.Venue.Kraken.BookFeed.{book_or_new}
use tickstore.Venue.Kraken.Checked.{IsPublished, IsWithheld, apply_frame-checked}
use tickstore.Venue.Kraken.Normalized.{IsKrakenTrade, normalize_all-IsKrakenTrade}
use tickstore.Venue.Kraken.Checksum.{crc32}

-- The test vector of CRC-32.
crc32_check : crc32 (codes "123456789") ≡ 0xCBF43926
unfolding crc32
crc32_check = refl

abbrev all_ports : Ports
all_ports = record { has_sink = true; has_observer = true }

abbrev precision_1_8 : Precision
precision_1_8 = record { price = pos 1; qty = pos 8 }

abbrev snapshot_row : BookDataWire
snapshot_row = record {
  symbol = codes "BTC/USD";
  bids = record { price = codes "45283.5"; qty = codes "0.10000000" } ∷ [];
  asks = record { price = codes "45285.2"; qty = codes "0.00100000" } ∷ [];
  checksum = 0;
  timestamp = [];
}

abbrev new_book : SeqBook
new_book = book_or_new (codes "BTC/USD") none

abbrev wrong_checksum : Step SeqBook
wrong_checksum =
    apply_frame all_ports true (some precision_1_8) (pos 0) (pos 1) snapshot_row new_book

apply_frame-checked_example :
    IsPublished all_ports (some precision_1_8) 0 wrong_checksum ⊎ IsWithheld wrong_checksum
apply_frame-checked_example =
    apply_frame-checked all_ports true (some precision_1_8) (pos 0) (pos 1) snapshot_row new_book

abbrev row_1 : WireTrade
row_1 = record {
  symbol = codes "BTC/USD";
  side = codes "buy";
  price = codes "50123.45";
  qty = codes "0.5";
  trade_id = pos 7;
  timestamp = codes "t";
}

abbrev clock : Decoder
clock = record { envelope = λ s. none; trades = λ s. none; time = λ s. some (pos 1) }

abbrev trade_1 : Trade
trade_1 = record {
  venue = codes "kraken";
  symbol = codes "BTC/USD";
  ts_exchange = pos 1;
  ts_received = pos 2;
  price = pos 5012345000000;
  size = pos 50000000;
  side = buy;
  trade_id = codes "7";
}

trade_1-parsed : normalize_all clock (row_1 ∷ []) (pos 2) ≡ ok (trade_1 ∷ [])
unfolding normalize_all normalize_trade parse_fixed wrap64 quot_ℤ ◌+ℤ◌ ◌*ℤ◌ neg_ℤ format_int
    format_uint digits
trade_1-parsed = refl

normalize_all-IsKrakenTrade_example :
    AllPairs (IsKrakenTrade clock (pos 2)) (row_1 ∷ []) (trade_1 ∷ [])
normalize_all-IsKrakenTrade_example =
    normalize_all-IsKrakenTrade clock (row_1 ∷ []) (pos 2) (trade_1 ∷ []) trade_1-parsed
