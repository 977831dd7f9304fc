-- ===== src/Live/Examples.antt =====
-- internal/live/registry.go on concrete trades.
use mathlib.Core.List.{Perm}
use mathlib.Core.List.Perm
use tickstore.Prelude.{
  length, min, suc, zero, ◌+◌, ◌++◌, Bytes, IsSorted, List, [], arith, bytes_eq, codes, get_elem?,
  if◌then◌else◌, int_eq, leb_ℤ, nat_eq, neg_ℤ, pos, quot_ℤ, refl, some, sort_slice, take, ℕ, ℤ,
  ◌&&◌, ◌+ℤ◌, ◌==◌, ◌∷◌, ◌≡◌,
}
use tickstore.Prelude.Sort.{IsSorted}
use tickstore.Norm.{Level, Time, Trade, buy}
use tickstore.Book.{Book, apply_snapshot, new}
use tickstore.Book.Views.{depth}
use tickstore.Live.Quotes.{Floats, ladder, market_depth}
use tickstore.Live.Ladders.{ladder-rows, row_at, total_size}
use tickstore.Live.Markets.{market_depth-on_book}
use tickstore.Live.{
  RecentTrade, Registry, depth_levels, latest_trade_id, new_registry, on_book, trades_since,
}
use tickstore.Live.Recent.{
  entries, last_id, page, record_all, record_all-recent, rows, trades_since-page,
}

abbrev trade_at : ℕ → Trade
trade_at price = record {
  venue = codes "okx";
  symbol = codes "BTC";
  ts_exchange = pos 0;
  ts_received = pos 0;
  price = pos price;
  size = pos 1;
  side = buy;
  trade_id = [];
}

abbrev three : List Trade
three = trade_at 1 ∷ trade_at 2 ∷ trade_at 3 ∷ []

abbrev trades_from : ℕ → ℕ → List Trade
trades_from price zero = []
trades_from price (suc n) = trade_at price ∷ trades_from (price + 1) n

record_all-recent_example :
    ((older : List RecentTrade) × (older ++ (record_all new_registry (trades_from 1 502)).recent
        ≡ entries 0 (trades_from 1 502))
      × (length (record_all new_registry (trades_from 1 502)).recent
          ≡ min 500 (length (trades_from 1 502))))
    × (latest_trade_id (record_all new_registry (trades_from 1 502))
        ≡ pos (length (trades_from 1 502)))
record_all-recent_example = record_all-recent (trades_from 1 502) (omega arith)

abbrev no_clock : Time → Bytes
no_clock t = []

trades_since-page_example : trades_since no_clock (record_all new_registry three) (pos 1) 1 ≡ (
  rows no_clock (page (pos 1) 1 (record_all new_registry three).recent),
  last_id (pos 1) (page (pos 1) 1 (record_all new_registry three).recent),
)
trades_since-page_example = trades_since-page no_clock (record_all new_registry three) (pos 1) 1

abbrev no_floats : Floats
no_floats = record {
  Num = ℤ;
  zero_num = pos 0;
  of_fixed = λ v. v;
  is_positive = λ v. leb_ℤ (pos 1) v;
  minus = λ a b. a +ℤ neg_ℤ b;
  midpoint = λ a b. quot_ℤ (a +ℤ b) 2;
}

abbrev two_levels : List Level
two_levels = record { price = pos 100; size = pos 3 } ∷ record { price = pos 99; size = pos 4 } ∷ []

abbrev btc_book : Book
btc_book = apply_snapshot (new (codes "okx") (codes "BTC")) (record {
  venue = codes "okx";
  symbol = codes "BTC";
  ts_exchange = pos 0;
  ts_received = pos 0;
  bids = two_levels;
  asks = [];
  seq = 1;
})

market_depth-on_book_example :
    market_depth no_floats (on_book new_registry btc_book (pos 5)) (codes "okx") (codes "BTC") ≡ (
      if (btc_book.venue == codes "okx") && (btc_book.symbol == codes "BTC")
      then some (
        ladder no_floats (depth btc_book (pos depth_levels)).0,
        ladder no_floats (depth btc_book (pos depth_levels)).1,
      )
      else market_depth no_floats new_registry (codes "okx") (codes "BTC"))
unfolding apply_snapshot sort_slice new
market_depth-on_book_example =
    market_depth-on_book no_floats new_registry btc_book (pos 5) (codes "okx") (codes "BTC")
      (refl, (refl, (refl, tt))) (refl, (refl, (refl, tt)))

ladder-rows_example :
    get_elem? (ladder no_floats two_levels) 1
    ≡ row_at no_floats (total_size (take 2 two_levels)) (get_elem? two_levels 1)
ladder-rows_example = ladder-rows no_floats two_levels 1

-- The same book of two venues.
abbrev two_markets : Registry
two_markets =
    on_book (on_book new_registry btc_book (pos 5)) (record btc_book { venue = codes "kraken" })
      (pos 6)

-- The same markets in the other order.
abbrev turned : Registry
turned =
    on_book (on_book new_registry (record btc_book { venue = codes "kraken" }) (pos 5)) btc_book
      (pos 6)
