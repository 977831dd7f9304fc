-- ===== src/Sink/Stats/Examples.antt =====
-- internal/sink/stats.go on concrete answers.
use mathlib.Core.List
use tickstore.Prelude.{ℕ, Bytes, List, [], codes, false, map, ok, pos, refl, some, ℕ, ◌↔◌, ◌∷◌, ◌≡◌}
use tickstore.Norm.{Time}
use tickstore.Sink.Stats.{
  Answer, TableStat, TradeRow, feed_row, recent_trades, reverse, table_stats, tables,
}
use tickstore.Sink.Stats.Feed.{recent_trades_iff}
use tickstore.Sink.Stats.Tables.{report, table_stats_iff}

turned : reverse {A = ℕ} (1 ∷ 2 ∷ 3 ∷ 4 ∷ []) ≡ 4 ∷ 3 ∷ 2 ∷ 1 ∷ []
unfolding reverse
turned = refl

abbrev row_at : ℕ → TradeRow
row_at t = record {
  ts = pos t;
  venue = codes "okx";
  symbol = codes "BTC";
  side = codes "buy";
  price = pos 5;
  size = pos 7;
}

abbrev no_clock : Time → Bytes
no_clock t = []

abbrev two_trades : List TradeRow
two_trades = row_at 2 ∷ row_at 1 ∷ []

recent_trades_iff_example :
    (recent_trades no_clock (Answer.rows (map some two_trades) false)
      ≡ ok (List.reverse (map (feed_row no_clock) two_trades)))
    ↔ ((scanned : List TradeRow) × (Answer.rows (map some two_trades) false
          ≡ Answer.rows (map some scanned) false)
        × (List.reverse (map (feed_row no_clock) two_trades)
            ≡ List.reverse (map (feed_row no_clock) scanned)))
recent_trades_iff_example =
    recent_trades_iff no_clock (Answer.rows (map some two_trades) false)
      (List.reverse (map (feed_row no_clock) two_trades))

abbrev one_table : List TableStat
one_table = record { name = codes "book_updates"; rows = 9; bytes = 80 } ∷ []

table_stats_iff_example :
    (table_stats (Answer.rows (map some one_table) false) ≡ ok (report one_table tables)) ↔ (
      (scanned : List TableStat) × (Answer.rows (map some one_table) false
        ≡ Answer.rows (map some scanned) false)
      × (report one_table tables ≡ report scanned tables))
table_stats_iff_example =
    table_stats_iff (Answer.rows (map some one_table) false) (report one_table tables)
