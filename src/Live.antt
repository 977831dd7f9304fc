-- ===== src/Live.antt =====
-- internal/live/registry.go: the state in memory that the dashboard reads. The lock makes each
-- method one step.
pub mod Cursor
pub mod Ladders
pub mod Markets
pub mod Ordering
pub mod Grid
pub mod Quotes
pub mod Recent
mod Examples
use tickstore.Prelude.{
  Assoc, Bool, Bytes, List, Option, [], bytes_eq, drop, if◌then◌else◌, insert, int_eq, leb, leb_ℤ,
  length, ltb, nat_eq, none, pos, some, wrap64, ℕ, ℤ, ◌++◌, ◌+ℤ◌, ◌+◌, ◌-◌, ◌∷◌,
}
use tickstore.Norm.{Level, Side, Time, Trade, price_decimals, side_name, size_decimals}
use tickstore.Norm.Fixed.{format_fixed, text_of}
use tickstore.Book.{Book}
use tickstore.Book.Views.{depth}

abbrev pub depth_levels : ℕ
depth_levels = 12

abbrev pub max_recent_trades : ℕ
max_recent_trades = 500

pub record RecentTrade : Type 0 where
  pub id : ℤ
  pub venue : Bytes
  pub symbol : Bytes
  pub side : Side
  pub price : ℤ
  pub size : ℤ
  pub ts : Time

pub record BookState : Type 0 where
  pub venue : Bytes
  pub symbol : Bytes
  pub bids : List Level
  pub asks : List Level
  pub seq : ℕ
  pub gaps : ℕ
  pub resyncs : ℕ
  pub synced : Bool
  pub updated : Time

pub record TradeState : Type 0 where
  pub price : ℤ
  pub side : Side
  pub size : ℤ
  pub updated : Time

pub record Registry : Type 0 where
  pub books : Assoc Bytes BookState
  pub trades : Assoc Bytes TradeState
  pub recent : List RecentTrade
  pub next_trade_id : ℤ

unfoldable pub new_registry : Registry
new_registry = record { books = []; trades = []; recent = []; next_trade_id = pos 0 }

unfoldable pub key : Bytes → Bytes → Bytes
key venue symbol = venue ++ b'|' ∷ symbol

-- What `OnBook` records of a book at the time `now`.
unfoldable pub book_state : Book → Time → BookState
book_state b now = record {
  venue = b.venue;
  symbol = b.symbol;
  bids = (depth b (pos depth_levels)).0;
  asks = (depth b (pos depth_levels)).1;
  seq = b.last_seq;
  gaps = b.gaps;
  resyncs = b.resyncs;
  synced = b.synced;
  updated = now;
}

unfoldable pub on_book : Registry → Book → Time → Registry
unfolding key book_state
on_book r b now = record r { books = insert (key b.venue b.symbol) (book_state b now) r.books }

-- The last `n` items.
unfoldable pub keep_last {ℓ} : {A : Type ℓ} → ℕ → List A → List A
keep_last n xs = if ltb n (length xs) then drop (length xs - n) xs else xs

unfoldable pub on_trade : Registry → Trade → Registry
unfolding key keep_last
on_trade r t =
    let id = wrap64 (r.next_trade_id +ℤ pos 1) in
    let entry : RecentTrade = record {
      id = id;
      venue = t.venue;
      symbol = t.symbol;
      side = t.side;
      price = t.price;
      size = t.size;
      ts = t.ts_received;
    } in
    record r {
      trades =
          insert (key t.venue t.symbol)
            (record { price = t.price; side = t.side; size = t.size; updated = t.ts_received })
            r.trades;
      next_trade_id = id;
      recent = keep_last max_recent_trades (r.recent ++ entry ∷ []);
    }

unfoldable pub latest_trade_id : Registry → ℤ
latest_trade_id r = r.next_trade_id

pub record TradeRow : Type 0 where
  pub time : Bytes
  pub venue : Bytes
  pub symbol : Bytes
  pub side : Bytes
  pub size : Bytes
  pub price : Bytes

-- `clock` is the layout "15:04:05" of a time.
module _ (clock : Time → Bytes) where
  unfoldable pub trade_row : RecentTrade → TradeRow
  trade_row t = record {
    time = clock t.ts;
    venue = t.venue;
    symbol = t.symbol;
    side = side_name t.side;
    size = text_of (format_fixed t.size (pos size_decimals));
    price = text_of (format_fixed t.price (pos price_decimals));
  }

  -- The loop: `out` counts the rows so far.
  unfoldable pub collect : ℤ → ℕ → List RecentTrade → ℕ → ℤ → List TradeRow × ℤ
  unfolding trade_row
  collect cursor limit [] out last = ([], last)
  collect cursor limit (t ∷ ts) out last =
      let skipped = collect cursor limit ts out last in
      let rest = collect cursor limit ts (out + 1) t.id in
      if leb_ℤ t.id cursor
      then skipped
      else if leb limit (out + 1)
      then (trade_row t ∷ [], t.id)
      else (trade_row t ∷ rest.0, rest.1)

  unfoldable pub trades_since : Registry → ℤ → ℕ → List TradeRow × ℤ
  unfolding collect
  trades_since r cursor limit = collect cursor limit r.recent 0 cursor
