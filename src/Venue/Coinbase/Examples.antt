-- ===== src/Venue/Coinbase/Examples.antt =====
-- internal/venue/coinbase on concrete messages.
use tickstore.Prelude.{
  List, [], arith, codes, false, neg_ℤ, ok, pos, quot_ℤ, refl, some, true, wrap64, ℕ, ◌*ℤ◌, ◌+ℤ◌,
  ◌∷◌, ◌≡◌, ◌⊎◌,
}
use tickstore.Prelude.Tests.{bytes_eq}
use tickstore.Norm.{BookUpdate, Trade, buy}
use tickstore.Norm.Fixed.{parse_fixed}
use tickstore.Norm.Decimal.{digits, format_int, format_uint}
use tickstore.Book.Resync.{reference}
use tickstore.Venue.Feed.{Ports}
use tickstore.Venue.Coinbase.{Decoder, WireMessage, normalize, one, parse_message}
use tickstore.Venue.Coinbase.Books.{SeqBook, push_updates}
use tickstore.Venue.Coinbase.Sequence.{number_from, push_updates-eq-reference, stored_all}
use tickstore.Venue.Coinbase.Normalized.{IsCoinbaseTrade, parse_message-IsCoinbaseTrade}

abbrev all_ports : Ports
all_ports = record { has_sink = true; has_observer = true }

abbrev change : ℕ → ℕ → BookUpdate
change price size = record {
  venue = codes "coinbase";
  symbol = codes "BTC-USD";
  ts_exchange = pos 0;
  ts_received = pos 0;
  side = buy;
  price = pos price;
  size = pos size;
  seq = 0;
  is_snapshot = false;
}

abbrev seeded : SeqBook
seeded = record {
  book = record {
    venue = codes "coinbase";
    symbol = codes "BTC-USD";
    bids = (pos 100, pos 1) ∷ [];
    asks = [];
    last_seq = 3;
    synced = true;
    pending = [];
    gaps = 0;
    resyncs = 0;
    dropped = 0;
  };
  seq = 3;
}

abbrev two_changes : List BookUpdate
two_changes = change 100 0 ∷ change 99 5 ∷ []

push_updates-eq-reference_example :
    ((push_updates all_ports two_changes seeded).0.book
      ≡ reference seeded.book (number_from 3 two_changes))
    × ((push_updates all_ports two_changes seeded).1 ≡ stored_all (number_from 3 two_changes))
push_updates-eq-reference_example =
    push_updates-eq-reference all_ports two_changes seeded
      (record { linked = λ e. refl; waiting = tt; no_gaps = refl }) refl (omega arith)

abbrev maker_sell : WireMessage
maker_sell = record {
  kind = codes "match";
  product_id = codes "BTC-USD";
  trade_id = pos 7;
  side = codes "sell";
  price = codes "50123.45";
  size = codes "0.5";
  time = codes "t";
}

abbrev one_message : Decoder
one_message = record { message = λ raw. some maker_sell; time = λ s. some (pos 1) }

abbrev taker_buy : Trade
taker_buy = record {
  venue = codes "coinbase";
  symbol = codes "BTC-USD";
  ts_exchange = pos 1;
  ts_received = pos 2;
  price = pos 5012345000000;
  size = pos 50000000;
  side = buy;
  trade_id = codes "7";
}

taker_buy-parsed : parse_message one_message [] (pos 2) ≡ ok (one taker_buy)
unfolding parse_message normalize parse_fixed wrap64 quot_ℤ ◌+ℤ◌ ◌*ℤ◌ neg_ℤ format_int format_uint
    digits
taker_buy-parsed = refl

parse_message-IsCoinbaseTrade_example :
    (one taker_buy ≡ [])
    ⊎ ((m : WireMessage) × (t : Trade) × (one_message.message [] ≡ some m)
        × (m.kind ≡ codes "match")
        × (one taker_buy ≡ one t)
        × IsCoinbaseTrade one_message (pos 2) m t)
parse_message-IsCoinbaseTrade_example =
    parse_message-IsCoinbaseTrade one_message [] (pos 2) (one taker_buy) taker_buy-parsed
