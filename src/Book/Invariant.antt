-- ===== src/Book/Invariant.antt =====
-- The well-formedness predicate of a book of internal/book/book.go, and lemmas about it for each
-- operation.
use tickstore.Prelude.{
  All, Bool, Bool-cases, Bytes, IsMap, List, [], arith, bytes_eq, delete, delete-IsMap, drop, false,
  inl, inr, insert, insert-IsMap, int_beq_iff, int_eq, leb, length, length-append, length-drop,
  nat_eq, pos, refl, sort_slice, true, ℕ, ℤ, ◌==◌, ◌∷◌, ◌≡◌, ◌≢◌, ◌≤◌,
}
use tickstore.Norm.{BookSnapshot, BookUpdate, Level, Side, sell}
use tickstore.Book.Steps.{
  apply_gap, apply_next, apply_old, apply_unsynced, apply-Branch, buffer_fields, is_ahead, is_next,
  is_old, waits,
}
use tickstore.Book.{
  Book, Levels, apply, apply_delta, apply_snapshot, buffer, delete_all, incr64, load_levels,
  max_pending, new, price_less, prices, replay, seed, seq_less, set_level, trim, trim_side,
}

abbrev pub HasSize : ℤ × ℤ → Type 0
HasSize e = e.1 ≢ pos 0

-- A side holds a price once, and no level of size zero.
pub record IsSide (m : Levels) : Type 0 where
  pub keys : IsMap m
  pub sizes : All HasSize m

-- Nothing is buffered while the book is synced, and the buffer is bounded.
pub record IsBook (b : Book) : Type 0 where
  pub bids : IsSide b.bids
  pub asks : IsSide b.asks
  pub fits : length b.pending ≤ max_pending
  pub clean : b.synced ≡ true → b.pending ≡ []

insert-sizes : (p s : ℤ) (m : Levels) → s ≢ pos 0 → All HasSize m → All HasSize (insert p s m)
unfolding insert
insert-sizes p s [] hs h = (hs, tt)
insert-sizes p s ((q, t) ∷ m) hs h = ground (arith, insert-sizes p s m hs h.1)

delete-sizes : (p : ℤ) (m : Levels) → All HasSize m → All HasSize (delete p m)
unfolding delete
delete-sizes p [] h = tt
delete-sizes p ((q, t) ∷ m) h = ground (arith, delete-sizes p m h.1)

pub insert-IsSide : (p s : ℤ) (m : Levels) → s ≢ pos 0 → IsSide m → IsSide (insert p s m)
insert-IsSide p s m hs h = record {
  keys = insert-IsMap p s m h.keys;
  sizes = insert-sizes p s m hs h.sizes;
}

pub delete-IsSide : (p : ℤ) (m : Levels) → IsSide m → IsSide (delete p m)
delete-IsSide p m h = record { keys = delete-IsMap p m h.keys; sizes = delete-sizes p m h.sizes }

pub set_level-IsSide : (p s : ℤ) (m : Levels) → IsSide m → IsSide (set_level p s m)
unfolding set_level
set_level-IsSide p s m h = elim (Bool-cases (s == pos 0)) [
  | inl z ↦ rw z (delete-IsSide p m h)
  | inr z ↦ rw z (insert-IsSide p s m (λ e. cc (z, (int_beq_iff s (pos 0)).1 e)) h)
]

pub nil-IsSide : IsSide []
nil-IsSide = record { keys = tt; sizes = tt }

pub load_levels-IsSide : (ls : List Level) (m : Levels) → IsSide m → IsSide (load_levels ls m)
unfolding load_levels
load_levels-IsSide [] m h = h
load_levels-IsSide (l ∷ ls) m h = elim (Bool-cases (l.size == pos 0)) [
  | inl z ↦ rw z (load_levels-IsSide ls m h)
  | inr z ↦ rw z (
      load_levels-IsSide ls (insert l.price l.size m)
        (insert-IsSide l.price l.size m (λ e. cc (z, (int_beq_iff l.size (pos 0)).1 e)) h))
]

pub delete_all-IsSide : (ps : List ℤ) (m : Levels) → IsSide m → IsSide (delete_all ps m)
unfolding delete_all
delete_all-IsSide [] m h = h
delete_all-IsSide (p ∷ ps) m h = delete_all-IsSide ps (delete p m) (delete-IsSide p m h)

pub new-IsBook : (venue symbol : Bytes) → IsBook (new venue symbol)
unfolding new
new-IsBook venue symbol = record {
  bids = nil-IsSide;
  asks = nil-IsSide;
  fits = omega arith;
  clean = λ e. refl;
}

-- The buffer keeps its bound.
buffer-fits :
    (b : Book) (u : BookUpdate)
    → length b.pending ≤ max_pending
    → length (buffer b u).pending ≤ max_pending
unfolding buffer
buffer-fits b u h = ground (
  arith,
  length-append b.pending (u ∷ []),
  length-append (drop 1 b.pending) (u ∷ []),
  length-drop 1 b.pending,
)

buffer-IsBook :
    (b : Book) (u : BookUpdate)
    → IsSide b.bids
    → IsSide b.asks
    → length b.pending ≤ max_pending
    → b.synced ≡ false
    → IsBook (buffer b u)
buffer-IsBook b u hb ha hf hs =
    let (eb, ea, es, _) = buffer_fields b u in
    record {
      bids = rw eb hb;
      asks = rw ea ha;
      fits = buffer-fits b u hf;
      clean = λ e. cc (e, es, hs);
    }

apply_delta-IsBook :
    (b : Book) (side : Side) (p s : ℤ) (n : ℕ)
    → IsBook b
    → IsBook (record (apply_delta b side p s) { last_seq = n })
unfolding apply_delta
apply_delta-IsBook b sell p s n h = record {
  bids = h.bids;
  asks = set_level-IsSide p s b.asks h.asks;
  fits = h.fits;
  clean = h.clean;
}
apply_delta-IsBook b _ p s n h = record {
  bids = set_level-IsSide p s b.bids h.bids;
  asks = h.asks;
  fits = h.fits;
  clean = h.clean;
}

pub apply-IsBook : (b : Book) (u : BookUpdate) → IsBook b → IsBook (apply b u).0
apply-IsBook b u h = elim (apply-Branch b u) [
  | waits off ↦ rw (apply_unsynced b u off) (buffer-IsBook b u h.bids h.asks h.fits off)
  | is_old on old ↦ rw (apply_old b u on old) h
  | is_ahead on gap ↦ rw (apply_gap b u on gap) (
      buffer-IsBook (record b { gaps = incr64 b.gaps; synced = false }) u h.bids h.asks h.fits refl)
  | is_next on next ↦
      rw (apply_next b u on next) (apply_delta-IsBook b u.side u.price u.size u.seq h)
]

pub replay-IsBook : (us : List BookUpdate) (b : Book) → IsBook b → IsBook (replay b us)
unfolding replay
replay-IsBook [] b h = h
replay-IsBook (u ∷ us) b h = replay-IsBook us (apply b u).0 (apply-IsBook b u h)

pub seed-IsBook : (b : Book) (s : BookSnapshot) → IsBook (seed b s)
unfolding seed
seed-IsBook b s = record {
  bids = load_levels-IsSide s.bids [] nil-IsSide;
  asks = load_levels-IsSide s.asks [] nil-IsSide;
  fits = omega arith;
  clean = λ e. refl;
}

-- A snapshot makes any book well-formed.
pub apply_snapshot-IsBook : (b : Book) (s : BookSnapshot) → IsBook (apply_snapshot b s)
unfolding apply_snapshot
apply_snapshot-IsBook b s =
    replay-IsBook (sort_slice seq_less b.pending) (seed b s) (seed-IsBook b s)

trim_side-IsSide : (m : Levels) (n : ℕ) (desc : Bool) → IsSide m → IsSide (trim_side m n desc)
unfolding trim_side
trim_side-IsSide m n desc h = elim (Bool-cases (leb (length m) n)) [
  | inl few ↦ rw few h
  | inr many ↦ rw many (delete_all-IsSide (drop n (sort_slice (price_less desc) (prices m))) m h)
]

pub trim-IsBook : (b : Book) (n : ℕ) → IsBook b → IsBook (trim b n)
unfolding trim
trim-IsBook b n h = record {
  bids = trim_side-IsSide b.bids n true h.bids;
  asks = trim_side-IsSide b.asks n false h.asks;
  fits = h.fits;
  clean = h.clean;
}

-- The calls that change a book.
pub data Call : Type 0 where
  update : BookUpdate → Call
  snapshot : BookSnapshot → Call
  trim_to : ℕ → Call

unfoldable pub perform : Book → Call → Book
perform b (update u) = (apply b u).0
perform b (snapshot s) = apply_snapshot b s
perform b (trim_to n) = trim b n

unfoldable pub perform_all : Book → List Call → Book
unfolding perform
perform_all b [] = b
perform_all b (c ∷ cs) = perform_all (perform b c) cs

perform-IsBook : (b : Book) (c : Call) → IsBook b → IsBook (perform b c)
unfolding perform
perform-IsBook b (update u) h = apply-IsBook b u h
perform-IsBook b (snapshot s) h = apply_snapshot-IsBook b s
perform-IsBook b (trim_to n) h = trim-IsBook b n h

perform_all-keeps : (cs : List Call) (b : Book) → IsBook b → IsBook (perform_all b cs)
unfolding perform_all
perform_all-keeps [] b h = h
perform_all-keeps (c ∷ cs) b h = perform_all-keeps cs (perform b c) (perform-IsBook b c h)

-- Whatever calls are made on a new book, each side holds a price once and no level of size zero,
-- the buffer holds at most `max_pending` updates, and it is empty while the book is synced.
pub perform_all-IsBook :
    (venue symbol : Bytes) (cs : List Call) → IsBook (perform_all (new venue symbol) cs)
perform_all-IsBook venue symbol cs =
    perform_all-keeps cs (new venue symbol) (new-IsBook venue symbol)
