-- ===== src/Sink/ClickHouse.antt =====
-- internal/sink/clickhouse.go: the migration of the schema, and the inserters. The driver's calls are
-- effects, and what they return is a parameter.
pub mod Schema
pub mod Inserts
pub mod Rollup
mod Examples
use tickstore.Prelude.{
  Option, none, some, Bool, Bytes, List, Result, [], bytes_eq, err, false, if◌then◌else◌, int_eq,
  ltb, nat_eq, ok, true, ℕ, ℤ, ◌&&◌, ◌++◌, ◌==◌, ◌||◌, ◌∷◌,
}
use tickstore.Norm.{BookUpdate, Time, Trade, side_name}

-- `sep` ends a piece; any other byte belongs to the first one.
abbrev pub add_front : Bool → ℕ → List Bytes → List Bytes
add_front true c pieces = [] ∷ pieces
add_front false c [] = (c ∷ []) ∷ []
add_front false c (piece ∷ pieces) = (c ∷ piece) ∷ pieces

abbrev pub starts_comment : ℕ → Bytes → Bool
starts_comment c [] = false
starts_comment c (d ∷ s) = c == b'-' && d == b'-'

-- `strings.Split(s, sep)` for a separator of one byte.
unfoldable pub split : ℕ → Bytes → List Bytes
split sep [] = [] ∷ []
split sep (c ∷ s) = add_front (c == sep) c (split sep s)

-- `line[:strings.Index(line, "--")]`, the whole line where there is no comment.
unfoldable pub cut_comment : Bytes → Bytes
cut_comment [] = []
cut_comment (c ∷ s) = let rest = cut_comment s in if starts_comment c s then [] else c ∷ rest

unfoldable pub join_lines : List Bytes → Bytes
join_lines [] = []
join_lines (line ∷ lines) = cut_comment line ++ b'\n' ∷ join_lines lines

unfoldable pub strip_line_comments : Bytes → Bytes
unfolding split cut_comment join_lines
strip_line_comments sql = join_lines (split b'\n' sql)

-- White space of ASCII, as `strings.TrimSpace` has it, and the encodings of the other white space.
abbrev pub is_space : ℕ → Bool
is_space c = c == 32 || (ltb 8 c && ltb c 14)

-- The white space of three bytes.
abbrev is_wide : ℕ → ℕ → ℕ → Bool
is_wide a b c =
    (a == 225 && b == 154 && c == 128)
    || (a == 226 && b == 128 && ((ltb 127 c && ltb c 139) || c == 168 || c == 169 || c == 175))
    || (a == 226 && b == 129 && c == 159)
    || (a == 227 && b == 128 && c == 128)

-- What has been read of a rune of white space.
pub data Pending : Type 0 where
  no_rune : Pending
  one_byte : ℕ → Pending
  two_bytes : ℕ → ℕ → Pending

-- The next byte: `none` where no white space goes on with it.
abbrev pub advance : Pending → ℕ → Option Pending
advance no_rune c =
    if is_space c
    then some no_rune
    else if c == 194 || (ltb 224 c && ltb c 228)
    then some (one_byte c)
    else none
advance (one_byte a) c =
    if a == 194 then if c == 133 || c == 160 then some no_rune else none else some (two_bytes a c)
advance (two_bytes a b) c = if is_wide a b c then some no_rune else none

abbrev pub is_whole : Pending → Bool
is_whole no_rune = true
is_whole (one_byte a) = false
is_whole (two_bytes a b) = false

unfoldable pub blank_from : Pending → Bytes → Bool
blank_from p [] = is_whole p
blank_from p (c ∷ s) = elim (advance p c) [ none ↦ false | some q ↦ blank_from q s ]

-- `strings.TrimSpace(stmt) == ""`
unfoldable pub is_blank : Bytes → Bool
unfolding blank_from
is_blank = blank_from no_rune

-- `exec` tells whether the driver runs a statement. The statements that were sent, and whether all ran.
module _ (exec : Bytes → Bool) where
  unfoldable pub run_statements : List Bytes → List Bytes × Bool
  unfolding is_blank
  run_statements [] = ([], true)
  run_statements (stmt ∷ rest) =
      let later = run_statements rest in
      if is_blank stmt
      then later
      else if exec stmt
      then (stmt ∷ later.0, later.1)
      else (stmt ∷ [], false)

  unfoldable pub migrate : Bytes → List Bytes × Bool
  unfolding strip_line_comments run_statements
  migrate schema = run_statements (split b';' (strip_line_comments schema))

-- The columns of a row of the two tables, as `Append` gets them.
pub record TradeColumns : Type 0 where
  pub venue : Bytes
  pub symbol : Bytes
  pub ts_exchange : Time
  pub ts_received : Time
  pub price : ℤ
  pub size : ℤ
  pub side : Bytes
  pub trade_id : Bytes

pub record BookColumns : Type 0 where
  pub venue : Bytes
  pub symbol : Bytes
  pub ts_exchange : Time
  pub ts_received : Time
  pub side : Bytes
  pub price : ℤ
  pub size : ℤ
  pub seq : ℕ
  pub is_snapshot : ℕ

unfoldable pub trade_columns : Trade → TradeColumns
trade_columns t = record {
  venue = t.venue;
  symbol = t.symbol;
  ts_exchange = t.ts_exchange;
  ts_received = t.ts_received;
  price = t.price;
  size = t.size;
  side = side_name t.side;
  trade_id = t.trade_id;
}

unfoldable pub book_columns : BookUpdate → BookColumns
book_columns u = record {
  venue = u.venue;
  symbol = u.symbol;
  ts_exchange = u.ts_exchange;
  ts_received = u.ts_received;
  side = side_name u.side;
  price = u.price;
  size = u.size;
  seq = u.seq;
  is_snapshot = if u.is_snapshot then 1 else 0;
}

-- The calls of a batch of the driver.
pub data BatchCall (C : Type 0) : Type 0 where
  append : C → BatchCall C
  abort send : BatchCall C

pub data InsertError : Type 0 where
  prepare_failed append_failed send_failed : InsertError

-- The loop of both `Insert` methods, over rows with the columns `C`; `appends` tells whether the
-- driver takes a row.
module _ {A C : Type 0} (columns : A → C) (appends : C → Bool) (sends : Bool) where
  unfoldable pub append_all : List A → List (BatchCall C) × Result InsertError (Unit {0})
  append_all [] = (send ∷ [], if sends then ok tt else err send_failed)
  append_all (r ∷ rs) =
      let later = append_all rs in
      if appends (columns r)
      then (append (columns r) ∷ later.0, later.1)
      else (append (columns r) ∷ abort ∷ [], err append_failed)

  unfoldable pub insert_rows : Bool → List A → List (BatchCall C) × Result InsertError (Unit {0})
  unfolding append_all
  insert_rows false rows = ([], err prepare_failed)
  insert_rows true rows = append_all rows

unfoldable pub insert_trades :
    (TradeColumns → Bool)
    → Bool
    → Bool
    → List Trade
    → List (BatchCall TradeColumns) × Result InsertError (Unit {0})
unfolding insert_rows trade_columns
insert_trades = insert_rows trade_columns

unfoldable pub insert_books :
    (BookColumns → Bool)
    → Bool
    → Bool
    → List BookUpdate
    → List (BatchCall BookColumns) × Result InsertError (Unit {0})
unfolding insert_rows book_columns
insert_books = insert_rows book_columns
