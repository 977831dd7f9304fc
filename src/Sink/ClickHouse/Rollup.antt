-- ===== src/Sink/ClickHouse/Rollup.antt =====
-- internal/sink/clickhouse.go: the connection, and the backfill of the rollup views.
use tickstore.Prelude.{
  Bool, false, true, Bytes, List, Option, [], codes, if◌then◌else◌, ltb, none, not, some, suc, zero,
  ℕ, ◌++◌, ◌∷◌,
}

pub data OpenCall : Type 0 where
  open_connection ping close_connection : OpenCall

pub data OpenError : Type 0 where
  open_failed ping_failed : OpenError

-- `OpenClickHouse`, where each step succeeds or not: a server that does not answer is closed.
unfoldable pub open_clickhouse : Bool → Bool → List OpenCall × Option OpenError
open_clickhouse opens answers =
    if not opens
    then (open_connection ∷ [], some open_failed)
    else if not answers
    then (open_connection ∷ ping ∷ close_connection ∷ [], some ping_failed)
    else (open_connection ∷ ping ∷ [], none)

-- The two views, and the bound below which raw rows are counted and filled in: two minutes ago, or
-- the oldest minute of the view.
pub data View : Type 0 where
  trades_1m book_1m : View

pub data Upper : Type 0 where
  two_minutes_ago oldest_minute : Upper

abbrev pub view_name : View → Bytes
view_name trades_1m = codes "tickstore.trades_1m"
view_name book_1m = codes "tickstore.book_1m"

abbrev pub raw_name : View → Bytes
raw_name trades_1m = codes "tickstore.trades"
raw_name book_1m = codes "tickstore.book_updates"

abbrev pub ttl : View → Bytes
ttl trades_1m = codes "90 DAY"
ttl book_1m = codes "30 DAY"

abbrev pub upper_text : View → Upper → Bytes
upper_text v two_minutes_ago = codes "now() - INTERVAL 2 MINUTE"
upper_text v oldest_minute = codes "(SELECT min(minute) FROM " ++ view_name v ++ codes ")"

-- The rows of a view, and the raw rows younger than the view's ttl that lie below a bound.
pub data Query : Type 0 where
  rows_in : View → Query
  rows_below : View → Upper → Query

unfoldable pub query_text : Query → Bytes
query_text (rows_in v) = codes "SELECT count() FROM " ++ view_name v
query_text (rows_below v upper) =
    codes "SELECT count() FROM "
    ++ raw_name v
    ++ codes " WHERE ts_received > now() - INTERVAL "
    ++ ttl v
    ++ codes " AND ts_received < "
    ++ upper_text v upper

-- The insert of `buildInsert`: a view, and the bound of the raw rows that are aggregated into it.
pub record Insert : Type 0 where
  pub view : View
  pub upper : Upper

-- The statement of `buildInsert`, with the bound in it.
unfoldable pub build_insert : View → Bytes → Bytes
build_insert trades_1m upper =
    codes "\n"
    ++ codes "\t\t\tINSERT INTO tickstore.trades_1m\n"
    ++ codes "\t\t\tSELECT venue, symbol, toStartOfMinute(ts_received) AS minute,\n"
    ++ codes "\t\t\t       argMaxState(price, ts_received),\n"
    ++ codes
        "\t\t\t       quantilesState(0.5, 0.99)(if(lat_ms >= 0 AND lat_ms < 60000, lat_ms, NULL)),\n"
    ++ codes "\t\t\t       countState()\n"
    ++ codes "\t\t\tFROM (\n"
    ++ codes "\t\t\t\tSELECT venue, symbol, ts_received, price,\n"
    ++ codes
        "\t\t\t\t       (toUnixTimestamp64Nano(ts_received) - toUnixTimestamp64Nano(ts_exchange)) / 1e6 AS lat_ms\n"
    ++ codes "\t\t\t\tFROM tickstore.trades\n"
    ++ codes "\t\t\t\tWHERE ts_received > now() - INTERVAL 90 DAY AND ts_received < "
    ++ upper
    ++ codes "\n"
    ++ codes "\t\t\t)\n"
    ++ codes "\t\t\tGROUP BY venue, symbol, minute"
build_insert book_1m upper =
    codes "\n"
    ++ codes "\t\t\tINSERT INTO tickstore.book_1m\n"
    ++ codes "\t\t\tSELECT venue, toStartOfMinute(ts_received) AS minute, count()\n"
    ++ codes "\t\t\tFROM tickstore.book_updates\n"
    ++ codes "\t\t\tWHERE ts_received > now() - INTERVAL 30 DAY AND ts_received < "
    ++ upper
    ++ codes "\n"
    ++ codes "\t\t\tGROUP BY venue, minute"

unfoldable pub insert_text : Insert → Bytes
unfolding build_insert
insert_text i = build_insert i.view (upper_text i.view i.upper)

-- The database, with the states `S`: it answers a count, and it runs an insert, or either fails. Each
-- call leads to a further state, since time goes on and others write.
pub record Server (S : Type 0) : Type 0 where
  pub count : S → Query → S × Option ℕ
  pub exec : S → Insert → S × Bool

pub data BackfillError : Type 0 where
  count_failed gap_failed insert_failed : View → BackfillError

-- The state that the database is left in, the inserts that it ran, and the error.
pub record Backfilled (S : Type 0) : Type 0 where
  pub state : S
  pub inserts : List Insert
  pub error : Option BackfillError

abbrev pub upper_of : ℕ → Upper
upper_of rows = if ltb 0 rows then oldest_minute else two_minutes_ago

module _ {S : Type 0} (db : Server S) where
  abbrev pub stops : S → Option BackfillError → Backfilled S
  stops s error = record { state = s; inserts = []; error = error }

  abbrev pub insert_gap : Insert → S × Bool → Backfilled S
  insert_gap i (s, false) = stops s (some (insert_failed i.view))
  insert_gap i (s, true) = record { state = s; inserts = i ∷ []; error = none }

  abbrev pub on_gap : View → Upper → S × Option ℕ → Backfilled S
  on_gap v upper (s, none) = stops s (some (gap_failed v))
  on_gap v upper (s, some zero) = stops s none
  on_gap v upper (s, some (suc gap)) =
      let i : Insert = record { view = v; upper = upper } in insert_gap i (db.exec s i)

  abbrev pub on_count : View → S × Option ℕ → Backfilled S
  on_count v (s, none) = stops s (some (count_failed v))
  on_count v (s, some rows) =
      let upper = upper_of rows in on_gap v upper (db.count s (rows_below v upper))

  unfoldable pub fill_rollup_gap : View → S → Backfilled S
  fill_rollup_gap v s = on_count v (db.count s (rows_in v))

  -- The second view, where the first one did not fail.
  abbrev pub fill_next : View → Backfilled S → Backfilled S
  fill_next v first =
      let second = fill_rollup_gap v first.state in
      elim first.error [
        | some e ↦ first
        | none ↦ record second { inserts = first.inserts ++ second.inserts }
      ]

  unfoldable pub backfill_rollups : S → Backfilled S
  unfolding fill_rollup_gap
  backfill_rollups s = fill_next book_1m (fill_rollup_gap trades_1m s)
