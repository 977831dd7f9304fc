-- ===== src/Sink/Stats.antt =====
-- internal/sink/stats.go: what the dashboard reads from the database. The text of a query is its
-- name and its arguments; the rows that the driver returns are a parameter.
pub mod History
pub mod Scanned
pub mod Tables
pub mod Feed
mod Examples
use tickstore.Prelude.{
  Assoc, Bool, Bytes, List, Option, Result, [], bytes_eq, codes, err, false, get_elem?,
  if◌then◌else◌, insert, int_eq, leb, length, lookup, nat_eq, none, of_u64, ok, pos, some, suc,
  zero, ℕ, ℤ, ◌+◌, ◌-◌, ◌==◌, ◌>>=◌, ◌∷◌,
}
use tickstore.Norm.{Time, price_decimals, size_decimals}
use tickstore.Norm.Fixed.{format_fixed, text_of}

-- What the driver answers to a query: no rows, or a row for each call of `Next`, `none` where `Scan`
-- fails, and whether the connection broke behind the last one.
pub data Answer {ℓ} (R : Type ℓ) : Type ℓ where
  no_answer : Answer R
  rows : List (Option R) → Bool → Answer R

pub data StatsError : Type 0 where
  query_failed scan_failed rows_broken : StatsError

-- The tables that the dashboard reports on.
abbrev pub tables : List Bytes
tables = codes "trades" ∷ codes "book_updates" ∷ []

pub record TableStat : Type 0 where
  pub name : Bytes
  pub rows : ℕ
  pub bytes : ℕ

-- The loop over the rows.
unfoldable pub stats_by_name :
    List (Option TableStat) → Assoc Bytes TableStat → Result StatsError (Assoc Bytes TableStat)
stats_by_name [] by_name = ok by_name
stats_by_name (none ∷ rest) by_name = err scan_failed
stats_by_name (some s ∷ rest) by_name = stats_by_name rest (insert s.name s by_name)

-- `s := byName[name]; s.Name = name`
abbrev pub stat_or_zero : Bytes → Option TableStat → TableStat
stat_or_zero name none = record { name = name; rows = 0; bytes = 0 }
stat_or_zero name (some s) = record s { name = name }

unfoldable pub fill_tables : Assoc Bytes TableStat → List Bytes → List TableStat
fill_tables by_name [] = []
fill_tables by_name (name ∷ names) =
    stat_or_zero name (lookup name by_name) ∷ fill_tables by_name names

-- `return out, rows.Err()`
abbrev pub or_broken {ℓ} : {A : Type ℓ} → Bool → A → Result StatsError A
or_broken broken a = if broken then err rows_broken else ok a

unfoldable pub table_stats : Answer TableStat → Result StatsError (List TableStat)
unfolding stats_by_name fill_tables
table_stats no_answer = err query_failed
table_stats (Answer.rows rs broken) = do
  by_name ← stats_by_name rs []
  or_broken broken (fill_tables by_name tables)

-- The loop over the rows: `point` makes a result of the columns of a row.
unfoldable pub scan_points : {R P : Type 0} → (R → P) → List (Option R) → Result StatsError (List P)
scan_points point [] = ok []
scan_points point (none ∷ rest) = err scan_failed
scan_points point (some r ∷ rest) = do later ← scan_points point rest; ok (point r ∷ later)

-- The columns of a row of `RecentTrades`.
pub record TradeRow : Type 0 where
  pub ts : Time
  pub venue : Bytes
  pub symbol : Bytes
  pub side : Bytes
  pub price : ℤ
  pub size : ℤ

pub record FeedRow : Type 0 where
  pub ts_nanos : ℤ
  pub time : Bytes
  pub venue : Bytes
  pub symbol : Bytes
  pub side : Bytes
  pub size : Bytes
  pub price : Bytes
  pub is_snapshot : Bool

-- Two elements change places; out of range nothing does.
abbrev pub set {ℓ} : {A : Type ℓ} → List A → ℕ → A → List A
set [] i v = []
set (x ∷ xs) zero v = v ∷ xs
set (x ∷ xs) (suc i) v = x ∷ set xs i v

abbrev pub swap_at {ℓ} : {A : Type ℓ} → List A → ℕ → ℕ → Option A → Option A → List A
swap_at xs i j (some a) (some b) = set (set xs i b) j a
swap_at xs i j none other = xs
swap_at xs i j (some a) none = xs

-- The loop of `reverse`: `i` and `j` move towards each other, `j` being one behind its place in the
-- source, where it starts at -1 for no rows. It has a round for each of `left` at most.
unfoldable pub swap_ends {ℓ} : {A : Type ℓ} → ℕ → ℕ → ℕ → List A → List A
swap_ends zero i j xs = xs
swap_ends (suc left) i j xs =
    let rest =
      swap_ends left (i + 1) (j - 1)
        (swap_at xs i (j - 1) (get_elem? xs i) (get_elem? xs (j - 1))) in
    if leb j (i + 1) then xs else rest

unfoldable pub reverse {ℓ} : {A : Type ℓ} → List A → List A
unfolding swap_ends
reverse xs = swap_ends (length xs) 0 (length xs) xs

-- `clock` is the layout "15:04:05" of a time.
module _ (clock : Time → Bytes) where
  unfoldable pub feed_row : TradeRow → FeedRow
  feed_row t = record {
    ts_nanos = t.ts;
    time = clock t.ts;
    venue = t.venue;
    symbol = t.symbol;
    side = t.side;
    size = text_of (format_fixed t.size (pos size_decimals));
    price = text_of (format_fixed t.price (pos price_decimals));
    is_snapshot = false;
  }

  unfoldable pub recent_trades : Answer TradeRow → Result StatsError (List FeedRow)
  unfolding scan_points feed_row reverse
  recent_trades no_answer = err query_failed
  recent_trades (Answer.rows rs broken) = do
    out ← scan_points feed_row rs
    or_broken broken (reverse out)
