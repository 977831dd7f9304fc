-- ===== src/Command/Printer.antt =====
-- cmd/tickstore/main.go: what the command does with a trade, with a book update, and with a book in
-- book mode.
use tickstore.Prelude.{
  Assoc, Bool, Bytes, List, Option, [], bytes_eq, false, if◌then◌else◌, insert, int_eq, leb, lookup,
  ltb, ltb_ℤ, max_i64, nat_eq, neg_ℤ, negsuc, none, pos, some, sub_ℕ, suc, wrap64, ℕ, ℤ, ◌%◌, ◌+ℤ◌,
  ◌+◌, ◌-◌, ◌∷◌,
}
use tickstore.Norm.{BookUpdate, Level, Time, Trade, price_decimals, side_name, size_decimals}
use tickstore.Norm.Fixed.{format_fixed, text_of}
use tickstore.Book.{Book}
use tickstore.Book.Views.{top_of_book}
use tickstore.Live.{Registry, on_trade}

-- `t.Sub(u)`, which stays in the range of a `time.Duration`.
unfoldable pub sub_time : Time → Time → ℤ
sub_time t u =
    let d = t +ℤ neg_ℤ u in
    if ltb_ℤ (pos max_i64) d
    then pos max_i64
    else if ltb_ℤ d (negsuc max_i64)
    then negsuc max_i64
    else d

-- `d.Round(m)`, half away from zero; where the result would pass the range, it is the range's end.
unfoldable pub round_duration : ℤ → ℕ → ℤ
round_duration (pos n) m =
    let r = n % m in
    if ltb (r + r) m
    then pos (n - r)
    else if leb (n - r + m) max_i64
    then pos (n - r + m)
    else pos max_i64
round_duration (negsuc n) m =
    let r = suc n % m in
    if ltb (r + r) m
    then sub_ℕ 0 (suc n - r)
    else if leb (suc n - r + m) (max_i64 + 1)
    then sub_ℕ 0 (suc n - r + m)
    else negsuc max_i64

-- A line of standard output. `clock` is the layout "15:04:05.000000".
pub record TradeLine : Type 0 where
  pub time : Bytes
  pub venue : Bytes
  pub symbol : Bytes
  pub side : Bytes
  pub size : Bytes
  pub price : Bytes
  pub trade_id : Bytes
  pub latency : ℤ

unfoldable pub trade_line : (Time → Bytes) → Trade → TradeLine
unfolding sub_time round_duration
trade_line clock t = record {
  time = clock t.ts_exchange;
  venue = t.venue;
  symbol = t.symbol;
  side = side_name t.side;
  size = text_of (format_fixed t.size (pos size_decimals));
  price = text_of (format_fixed t.price (pos price_decimals));
  trade_id = t.trade_id;
  latency = round_duration (sub_time t.ts_received t.ts_exchange) 1000;
}

-- What `tradeSink` does with a trade: the metrics, with the latency in nanoseconds, and the row.
pub data SinkEffect : Type 0 where
  count_trade : Bytes → SinkEffect
  observe_latency : Bytes → ℤ → SinkEffect
  add_trade : Trade → SinkEffect
  add_book : BookUpdate → SinkEffect

abbrev record_in : Option Registry → Trade → Option Registry
record_in none t = none
record_in (some reg) t = some (on_trade reg t)

unfoldable pub sink_trade : Option Registry → Trade → Option Registry × List SinkEffect
unfolding sub_time
sink_trade reg t = (
  record_in reg t,
  count_trade t.venue
      ∷ observe_latency t.venue (sub_time t.ts_received t.ts_exchange)
      ∷ add_trade t
      ∷ [],
)

unfoldable pub sink_book : BookUpdate → List SinkEffect
sink_book u = add_book u ∷ []

-- When a symbol's book was printed last, or would have been.
pub record Printer : Type 0 where
  pub last : Assoc Bytes Time
  pub every : ℕ

unfoldable pub new_printer : Printer
new_printer = record { last = []; every = 1_000_000_000 }

pub record TopLine : Type 0 where
  pub venue : Bytes
  pub symbol : Bytes
  pub bid : Bytes
  pub bid_size : Bytes
  pub ask : Bytes
  pub ask_size : Bytes
  pub spread : Bytes
  pub seq : ℕ
  pub gaps : ℕ
  pub resyncs : ℕ

unfoldable pub top_line : Book → Level → Level → TopLine
top_line b bid ask = record {
  venue = b.venue;
  symbol = b.symbol;
  bid = text_of (format_fixed bid.price (pos price_decimals));
  bid_size = text_of (format_fixed bid.size (pos size_decimals));
  ask = text_of (format_fixed ask.price (pos price_decimals));
  ask_size = text_of (format_fixed ask.size (pos size_decimals));
  spread = text_of (format_fixed (wrap64 (ask.price +ℤ neg_ℤ bid.price)) (pos price_decimals));
  seq = b.last_seq;
  gaps = b.gaps;
  resyncs = b.resyncs;
}

abbrev pub too_soon : Printer → Time → Option Time → Bool
too_soon p now none = false
too_soon p now (some t) = ltb_ℤ (sub_time now t) (pos p.every)

abbrev pub line_of : Book → Option (Level × Level) → Option TopLine
line_of b none = none
line_of b (some (bid, ask)) = some (top_line b bid ask)

-- `OnBook` at the time `now`: the printer after it, and the line that it prints.
unfoldable pub print_book : Printer → Book → Time → Printer × Option TopLine
unfolding top_line
print_book p b now =
    if too_soon p now (lookup b.symbol p.last)
    then (p, none)
    else (record p { last = insert b.symbol now p.last }, line_of b (top_of_book b))

abbrev pub add_line : Time → Option TopLine → List (TopLine × Time) → List (TopLine × Time)
add_line now none rest = rest
add_line now (some line) rest = (line, now) ∷ rest

-- The lines of a feed, with their times.
unfoldable pub print_all : Printer → List (Book × Time) → List (TopLine × Time)
unfolding print_book
print_all p [] = []
print_all p ((b, now) ∷ rest) =
    let (p', line) = print_book p b now in add_line now line (print_all p' rest)
