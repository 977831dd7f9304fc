-- ===== src/Norm.antt =====
-- internal/norm: the market data types that every venue is converted to, and fixed-point numbers.
pub mod Decimal
pub mod Fixed
pub mod Value
pub mod ReadDigits
pub mod Parts
pub mod Spelling
pub mod Worth
pub mod Literal
pub mod Sound
pub mod Numerals
pub mod RoundTrip
mod Examples
use tickstore.Prelude.{ℕ, ◌*◌, ◌^◌, ◌-◌, Bytes, codes, ℤ, pos, negsuc, List, Bool}

-- `time.Time` as nanoseconds since the Unix epoch.
abbrev pub Time : Type 0
Time = ℤ

-- The zero `time.Time`, midnight of January 1 of the year 1.
abbrev pub zero_time : Time
zero_time = negsuc (62135596800 * 10 ^ 9 - 1)

pub data Side : Type 0 where
  side_unknown buy sell : Side

unfoldable pub side_name : Side → Bytes
side_name buy = codes "buy"
side_name sell = codes "sell"
side_name _ = codes "unknown"

pub record Trade : Type 0 where
  pub venue : Bytes
  pub symbol : Bytes
  pub ts_exchange : Time
  pub ts_received : Time
  pub price : ℤ
  pub size : ℤ
  pub side : Side
  pub trade_id : Bytes

abbrev pub price_decimals : ℕ
price_decimals = 8

abbrev pub size_decimals : ℕ
size_decimals = 8

pub record Level : Type 0 where
  pub price : ℤ
  pub size : ℤ

pub record BookSnapshot : Type 0 where
  pub venue : Bytes
  pub symbol : Bytes
  pub ts_exchange : Time
  pub ts_received : Time
  pub bids : List Level
  pub asks : List Level
  pub seq : ℕ

pub record BookUpdate : Type 0 where
  pub venue : Bytes
  pub symbol : Bytes
  pub ts_exchange : Time
  pub ts_received : Time
  pub side : Side
  pub price : ℤ
  pub size : ℤ
  pub seq : ℕ
  pub is_snapshot : Bool
