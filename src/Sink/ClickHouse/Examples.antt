-- ===== src/Sink/ClickHouse/Examples.antt =====
-- internal/sink/clickhouse.go on a small schema and a small batch.
use tickstore.Prelude.{
  false, All, Bytes, Option, [], codes, none, ok, pos, refl, some, true, ℕ, ◌++◌, ◌+◌, ◌∷◌, ◌≡◌,
}
use tickstore.Sink.ClickHouse.Rollup.{
  Query, backfill_rollups, book_1m, fill_rollup_gap, oldest_minute, rows_below, rows_in,
  two_minutes_ago, trades_1m,
}
use tickstore.Norm.{BookUpdate, buy}
use tickstore.Prelude.{false}
use tickstore.Sink.ClickHouse.{
  blank_from, append_all, book_columns, cut_comment, insert_rows, is_blank, join_lines, migrate,
  run_statements, send, split, strip_line_comments,
}
use tickstore.Sink.ClickHouse.Schema.{IsStatement, migrate-IsStatement}
use tickstore.Sink.ClickHouse.Inserts.{IsTaken, appended, insert_rows-sent}

abbrev schema : Bytes
schema = codes "A; -- one; two\n\nB;"

two_statements : migrate (λ stmt. true) schema ≡ (codes "A" ∷ codes " \n\nB" ∷ [], true)
unfolding migrate split cut_comment join_lines is_blank blank_from run_statements
    strip_line_comments
two_statements = refl

-- A no-break space and an ideographic one are white space, and a letter behind one is not.
wide_blanks :
    (is_blank (194 ∷ 160 ∷ 227 ∷ 128 ∷ 128 ∷ b'\n' ∷ []) ≡ true)
    × (is_blank (194 ∷ 160 ∷ b'A' ∷ []) ≡ false)
    × (is_blank (194 ∷ []) ≡ false)
unfolding is_blank blank_from
wide_blanks = (refl, refl, refl)

migrate-IsStatement_example : All IsStatement (migrate (λ stmt. true) schema).0
migrate-IsStatement_example = migrate-IsStatement (λ stmt. true) schema

abbrev row_1 : BookUpdate
row_1 = record {
  venue = codes "okx";
  symbol = codes "BTC";
  ts_exchange = pos 0;
  ts_received = pos 0;
  side = buy;
  price = pos 1;
  size = pos 2;
  seq = 3;
  is_snapshot = true;
}

taken : (insert_rows book_columns (λ c. true) true true (row_1 ∷ [])).1 ≡ ok tt
unfolding insert_rows append_all
taken = refl

insert_rows-sent_example :
    (true ≡ true)
    × All (IsTaken book_columns (λ c. true)) (row_1 ∷ [])
    × ((insert_rows book_columns (λ c. true) true true (row_1 ∷ [])).0
        ≡ appended book_columns (row_1 ∷ []) ++ send ∷ [])
    × (true ≡ true)
insert_rows-sent_example = insert_rows-sent book_columns (λ c. true) true true (row_1 ∷ []) taken

-- A database whose states are numbers: the view of the trades is empty, that of the books is not, and
-- each has a gap.
abbrev answers : ℕ → Query → ℕ × Option ℕ
answers n (rows_in trades_1m) = (n + 1, some 0)
answers n (rows_in book_1m) = (n + 1, some 2)
answers n (rows_below v upper) = (n + 1, some 7)

backfill_runs :
    backfill_rollups (record { count = answers; exec = λ n i. (n + 1, true) }) 0 ≡ record {
      state = 6;
      inserts =
          record { view = trades_1m; upper = two_minutes_ago }
          ∷ record { view = book_1m; upper = oldest_minute }
          ∷ [];
      error = none;
    }
unfolding backfill_rollups fill_rollup_gap
backfill_runs = refl

-- No view has a gap.
backfill_idles :
    backfill_rollups (record { count = λ n q. (n + 1, some 0); exec = λ n i. (n + 1, false) }) 0
    ≡ record { state = 4; inserts = []; error = none }
unfolding backfill_rollups fill_rollup_gap
backfill_idles = refl
