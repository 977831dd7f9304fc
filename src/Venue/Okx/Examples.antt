-- ===== src/Venue/Okx/Examples.antt =====
-- internal/venue/okx on concrete rows.
use tickstore.Prelude.{
  Bool, List, [], codes, false, neg_ℤ, none, ok, pos, quot_ℤ, refl, true, wrap64, ℕ, ◌*ℤ◌, ◌+ℤ◌,
  ◌∷◌, ◌≡◌,
}
use tickstore.Norm.{Trade, sell}
use tickstore.Norm.Fixed.{parse_fixed}
use tickstore.Norm.Decimal.{parse_int}
use tickstore.Prelude.Tests.{bytes_eq}
use tickstore.Venue.Feed.{Ports}
use tickstore.Venue.Trades.{AllPairs}
use tickstore.Venue.Okx.{WireTrade, normalize_all, normalize_trade}
use tickstore.Venue.Okx.Books.{SeqBook, apply_frame, parse_book_levels}
use tickstore.Venue.Okx.BookFeed.{book_or_new}
use tickstore.Venue.Okx.Linked.{Frame, IsChain, take_frames, take_frames-IsChain}
use tickstore.Venue.Okx.Normalized.{IsOkxTrade, normalize_all-IsOkxTrade}

abbrev all_ports : Ports
all_ports = record { has_sink = true; has_observer = true }

abbrev frame_of : Bool → ℕ → ℕ → Frame
frame_of is_snapshot prev seq = record {
  is_snapshot = is_snapshot;
  ts_exchange = pos 0;
  ts_received = pos 0;
  row = record {
    asks = [];
    bids = (codes "100" ∷ codes "1" ∷ []) ∷ [];
    ts = codes "0";
    seq_id = pos seq;
    prev_seq_id = pos prev;
  };
}

abbrev frames : List Frame
frames = frame_of true 0 10 ∷ frame_of false 10 15 ∷ frame_of false 15 15 ∷ []

abbrev new_book : SeqBook
new_book = book_or_new (codes "BTC-USDT") none

frames-taken : (take_frames all_ports (codes "BTC-USDT") frames new_book).error ≡ none
unfolding take_frames apply_frame parse_book_levels parse_fixed wrap64 quot_ℤ ◌+ℤ◌ ◌*ℤ◌ neg_ℤ
frames-taken = refl

take_frames-IsChain_example : IsChain none frames
take_frames-IsChain_example =
    take_frames-IsChain all_ports (codes "BTC-USDT") frames new_book frames-taken

abbrev row_1 : WireTrade
row_1 = record {
  inst_id = codes "BTC-USDT";
  trade_id = codes "7";
  px = codes "50123.45";
  sz = codes "0.5";
  side = codes "sell";
  ts = codes "1000";
}

abbrev trade_1 : Trade
trade_1 = record {
  venue = codes "okx";
  symbol = codes "BTC-USDT";
  ts_exchange = pos 1000000000;
  ts_received = pos 2;
  price = pos 5012345000000;
  size = pos 50000000;
  side = sell;
  trade_id = codes "7";
}

trade_1-parsed : normalize_all (row_1 ∷ []) (pos 2) ≡ ok (trade_1 ∷ [])
unfolding normalize_all normalize_trade parse_int parse_fixed wrap64 quot_ℤ ◌+ℤ◌ ◌*ℤ◌ neg_ℤ
trade_1-parsed = refl

normalize_all-IsOkxTrade_example : AllPairs (IsOkxTrade (pos 2)) (row_1 ∷ []) (trade_1 ∷ [])
normalize_all-IsOkxTrade_example =
    normalize_all-IsOkxTrade (row_1 ∷ []) (pos 2) (trade_1 ∷ []) trade_1-parsed
