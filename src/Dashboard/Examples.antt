-- ===== src/Dashboard/Examples.antt =====
-- internal/dashboard/server.go on concrete queries and a concrete stream.
use tickstore.Prelude.{
  negsuc, max_i64, Bytes, List, [], arith, bytes_eq, codes, int_eq, leb_ℤ, length, lookup, nat_eq,
  neg_ℤ, pos, quot_ℤ, refl, true, ℕ, ℤ, ◌*◌, ◌++◌, ◌+ℤ◌, ◌-◌, ◌∷◌, ◌≡◌,
}
use tickstore.Norm.{Time, Trade, buy}
use tickstore.Live.{new_registry}
use tickstore.Live.Quotes.{Floats}
use tickstore.Live.Recent.{record_all}
use tickstore.Sink.Stats.{no_answer}
use tickstore.Norm.Decimal.{parse_int, parse_int_or_limit}
use tickstore.Dashboard.{Store, json, query_int, second}
use tickstore.Dashboard.Range.{Window, bucket_for, history_window}
use tickstore.Dashboard.Window.{IsServed, history_window-IsServed}
use tickstore.Dashboard.Stream.{Payload, StreamEvent, Turn, flushed, open_stream, recorded, turn}
use tickstore.Dashboard.Delivery.{Delivers, open_stream-Delivers, recorded_in, tape_of}

negative_is_zero : query_int (codes "-5") ≡ pos 0
unfolding query_int parse_int
negative_is_zero = refl

-- The value beside an error that the caller drops.
past_the_limit : parse_int_or_limit (codes "-99999999999999999999x") ≡ negsuc max_i64
unfolding parse_int_or_limit
past_the_limit = refl

-- Eight hours in 80 buckets of six minutes take the step of ten minutes.
eight_hours : bucket_for (8 * 3600) ≡ 600
unfolding bucket_for
eight_hours = refl

abbrev noon : Time
noon = pos (1_700_000_000 * second)

abbrev preset : Window
preset = record { from = pos ((1_700_000_000 - 3600) * second); to = noon; bucket_sec = 60 }

history_window-IsServed_example : IsServed noon preset
unfolding history_window lookup neg_ℤ ◌+ℤ◌
history_window-IsServed_example = history_window-IsServed [] [] (codes "1h") noon {w = preset} refl

abbrev trade_at : ℕ → Trade
trade_at price = record {
  venue = codes "okx";
  symbol = codes "BTC";
  ts_exchange = pos 0;
  ts_received = pos 0;
  price = pos price;
  size = pos 1;
  side = buy;
  trade_id = [];
}

abbrev whole_numbers : Floats
whole_numbers = record {
  Num = ℤ;
  zero_num = pos 0;
  of_fixed = λ v. v;
  is_positive = λ v. leb_ℤ (pos 1) v;
  minus = λ a b. a +ℤ neg_ℤ b;
  midpoint = λ a b. quot_ℤ (a +ℤ b) 2;
}

abbrev no_store : Store ℤ
no_store = record {
  table_answer = no_answer;
  trades_answer = λ since limit. no_answer;
  price_answer = λ q. no_answer;
  latency_answer = λ q. no_answer;
  rate_answer = λ q. no_answer;
}

abbrev one_turn : Turn whole_numbers
one_turn = record {
  quotes_at = noon;
  stats_at = noon;
  charts_at = noon;
  store = no_store;
  fate = flushed;
}

abbrev no_clock : Time → Bytes
no_clock t = []

abbrev events : List (StreamEvent whole_numbers)
events = recorded (trade_at 3) ∷ turn one_turn ∷ []

abbrev start : List Trade
start = trade_at 1 ∷ trade_at 2 ∷ []

open_stream-Delivers_example :
    (ps : List (Payload whole_numbers)) × (open_stream whole_numbers no_clock true
        (record_all new_registry start)
        events
      ≡ json ps)
    × Delivers whole_numbers no_clock
        (start ++ recorded_in whole_numbers events)
        (length start - 25)
        (tape_of whole_numbers ps)
unfolding recorded_in
open_stream-Delivers_example =
    open_stream-Delivers whole_numbers no_clock start events (omega arith, (refl, tt)) (omega arith)
