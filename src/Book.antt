-- ===== src/Book.antt =====
-- internal/book/book.go: the order book engine. A method that mutates the book returns the new one.
pub mod Views
pub mod Steps
pub mod Order
pub mod Invariant
pub mod Resync
pub mod Ranking
pub mod Depth
pub mod Top
pub mod Trim
pub mod Levels
pub mod Numbered
mod Examples
use tickstore.Prelude.{
  Assoc, Bool, Bytes, List, [], bytes_eq, delete, drop, false, if◌then◌else◌, insert, int_eq, leb,
  length, ltb, ltb_ℤ, nat_eq, not, pos, sort_slice, true, u64_mod, ℕ, ℤ, ◌%◌, ◌&&◌, ◌++◌, ◌+◌, ◌==◌,
  ◌∷◌,
}
use tickstore.Norm.{BookSnapshot, BookUpdate, Level, Side, sell}

abbrev pub max_pending : ℕ
max_pending = 100_000

-- One side of a book, `map[int64]int64`: price to size.
abbrev pub Levels : Type 0
Levels = Assoc ℤ ℤ

pub record Book : Type 0 where
  pub venue : Bytes
  pub symbol : Bytes
  pub bids : Levels
  pub asks : Levels
  pub last_seq : ℕ
  pub synced : Bool
  pub pending : List BookUpdate
  pub gaps : ℕ
  pub resyncs : ℕ
  pub dropped : ℕ

-- `n++` on a `uint64`
abbrev pub incr64 : ℕ → ℕ
incr64 n = (n + 1) % u64_mod

unfoldable pub new : Bytes → Bytes → Book
new venue symbol = record {
  venue = venue;
  symbol = symbol;
  bids = [];
  asks = [];
  last_seq = 0;
  synced = false;
  pending = [];
  gaps = 0;
  resyncs = 0;
  dropped = 0;
}

unfoldable pub buffer : Book → BookUpdate → Book
buffer b u =
    if leb max_pending (length b.pending)
    then record b { pending = drop 1 b.pending ++ u ∷ []; dropped = incr64 b.dropped }
    else record b { pending = b.pending ++ u ∷ [] }

-- A write of one level: size zero removes it.
unfoldable pub set_level : ℤ → ℤ → Levels → Levels
set_level price size m = if size == pos 0 then delete price m else insert price size m

unfoldable pub apply_delta : Book → Side → ℤ → ℤ → Book
unfolding set_level
apply_delta b sell price size = record b { asks = set_level price size b.asks }
apply_delta b _ price size = record b { bids = set_level price size b.bids }

-- The new book, and whether it needs a snapshot.
unfoldable pub apply : Book → BookUpdate → Book × Bool
unfolding buffer apply_delta
apply b u =
    let expected = incr64 b.last_seq in
    if not b.synced
    then (buffer b u, true)
    else if ltb u.seq expected
    then (b, false)
    else if ltb expected u.seq
    then (buffer (record b { gaps = incr64 b.gaps; synced = false }) u, true)
    else (record (apply_delta b u.side u.price u.size) { last_seq = u.seq }, false)

-- The levels of a snapshot's side. A level of size zero is passed over.
unfoldable pub load_levels : List Level → Levels → Levels
load_levels [] m = m
load_levels (l ∷ ls) m = load_levels ls (if l.size == pos 0 then m else insert l.price l.size m)

unfoldable pub replay : Book → List BookUpdate → Book
replay b [] = b
replay b (u ∷ us) = replay (apply b u).0 us

abbrev pub seq_less : BookUpdate → BookUpdate → Bool
seq_less u v = ltb u.seq v.seq

-- The book as the snapshot gives it, before the replay.
unfoldable pub seed : Book → BookSnapshot → Book
unfolding load_levels
seed b s = record b {
  resyncs = if not b.synced && not (b.last_seq == 0) then incr64 b.resyncs else b.resyncs;
  bids = load_levels s.bids [];
  asks = load_levels s.asks [];
  last_seq = s.seq;
  synced = true;
  pending = [];
}

unfoldable pub apply_snapshot : Book → BookSnapshot → Book
unfolding seed replay
apply_snapshot b s = replay (seed b s) (sort_slice seq_less b.pending)

-- The order of a side: bids descend.
abbrev pub price_less : Bool → ℤ → ℤ → Bool
price_less desc p q = if desc then ltb_ℤ q p else ltb_ℤ p q

unfoldable pub prices : Levels → List ℤ
prices [] = []
prices ((p, s) ∷ m) = p ∷ prices m

unfoldable pub delete_all : List ℤ → Levels → Levels
delete_all [] m = m
delete_all (p ∷ ps) m = delete_all ps (delete p m)

-- `n` is not negative: a slice bound.
unfoldable pub trim_side : Levels → ℕ → Bool → Levels
unfolding prices delete_all
trim_side side n desc =
    if leb (length side) n
    then side
    else delete_all (drop n (sort_slice (price_less desc) (prices side))) side

unfoldable pub trim : Book → ℕ → Book
unfolding trim_side
trim b n = record b { bids = trim_side b.bids n true; asks = trim_side b.asks n false }

-- `Stats`: gaps, resyncs and dropped updates.
unfoldable pub stats : Book → ℕ × ℕ × ℕ
stats b = (b.gaps, b.resyncs, b.dropped)
