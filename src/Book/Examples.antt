-- ===== src/Book/Examples.antt =====
-- internal/book on concrete books: two updates arrive before the snapshot, and a third behind it.
use mathlib.Core.List.{Perm}
use mathlib.Core.List.Perm
use tickstore.Prelude.{
  Bool, List, [], arith, bytes_eq, codes, false, if◌then◌else◌, int_eq, lookup, nat_eq, pos, refl,
  take, true, ℕ, ℤ, ◌&&◌, ◌++◌, ◌∷◌, ◌≡◌,
}
use tickstore.Norm.{BookSnapshot, BookUpdate, Level, Side, buy, sell}
use tickstore.Book.{Book, apply, apply_snapshot, new, seed, trim}
use tickstore.Book.Views.{both, depth, top_of_book}
use tickstore.Book.Invariant.{
  Call, IsBook, perform_all, perform_all-IsBook, snapshot, trim_to, update,
}
use tickstore.Book.Resync.{apply_snapshot-eq-reference, reference}
use tickstore.Book.Levels.{apply-levels, depth_unique, hits, is_expected, side_of, size_or_none}
use tickstore.Book.Top.{head_of, top_of_book-depth}
use tickstore.Book.Trim.{depth-trim}

abbrev update_of : Side → ℕ → ℕ → ℕ → BookUpdate
update_of side price size seq = record {
  venue = codes "kraken";
  symbol = codes "BTC/USD";
  ts_exchange = pos 0;
  ts_received = pos 0;
  side = side;
  price = pos price;
  size = pos size;
  seq = seq;
  is_snapshot = false;
}

abbrev level_of : ℕ → ℕ → Level
level_of price size = record { price = pos price; size = pos size }

abbrev snapshot_5 : BookSnapshot
snapshot_5 = record {
  venue = codes "kraken";
  symbol = codes "BTC/USD";
  ts_exchange = pos 0;
  ts_received = pos 0;
  bids = level_of 100 2 ∷ level_of 99 1 ∷ [];
  asks = level_of 101 3 ∷ [];
  seq = 5;
}

abbrev early : BookUpdate
early = update_of buy 98 4 5

abbrev late : BookUpdate
late = update_of buy 100 0 6

abbrev later : BookUpdate
later = update_of sell 102 7 7

abbrev empty_book : Book
empty_book = record {
  venue = codes "kraken";
  symbol = codes "BTC/USD";
  bids = [];
  asks = [];
  last_seq = 0;
  synced = false;
  pending = [];
  gaps = 0;
  resyncs = 0;
  dropped = 0;
}

-- The updates arrived out of order.
abbrev waiting_book : Book
waiting_book = record empty_book { pending = later ∷ early ∷ late ∷ [] }

abbrev synced_book : Book
synced_book = record empty_book {
  bids = (pos 100, pos 2) ∷ (pos 99, pos 1) ∷ [];
  asks = (pos 101, pos 3) ∷ [];
  last_seq = 5;
  synced = true;
}

abbrev stored_otherwise : Book
stored_otherwise = record synced_book { bids = (pos 99, pos 1) ∷ (pos 100, pos 2) ∷ [] }

reordered : Perm (later ∷ early ∷ late ∷ []) ((early ∷ []) ++ (late ∷ later ∷ []))
reordered =
    Perm.trans (Perm.swap early later (late ∷ [])) (Perm.cons early (Perm.swap late later []))

apply_snapshot-eq-reference_example :
    apply_snapshot waiting_book snapshot_5
    ≡ reference (seed waiting_book snapshot_5) (late ∷ later ∷ [])
apply_snapshot-eq-reference_example =
    apply_snapshot-eq-reference waiting_book snapshot_5 (early ∷ []) (late ∷ later ∷ []) reordered
      (omega arith, tt) (refl, (refl, tt)) (omega arith)

abbrev calls : List Call
calls =
    update later ∷ update early ∷ snapshot snapshot_5 ∷ update late ∷ trim_to 1 ∷ update early ∷ []

perform_all-IsBook_example : IsBook (perform_all (new (codes "kraken") (codes "BTC/USD")) calls)
perform_all-IsBook_example = perform_all-IsBook (codes "kraken") (codes "BTC/USD") calls

apply-levels_example : lookup (pos 100) (side_of (apply synced_book late).0 false) ≡ (
    if is_expected synced_book late && hits late false (pos 100)
    then size_or_none late.size
    else lookup (pos 100) (side_of synced_book false))
apply-levels_example = apply-levels synced_book late false (pos 100)

synced_book-IsBook : IsBook synced_book
unfolding lookup
synced_book-IsBook = record {
  bids = record { keys = (refl, (refl, tt)); sizes = (λ e. cc, (λ e. cc, tt)) };
  asks = record { keys = (refl, tt); sizes = (λ e. cc, tt) };
  fits = omega arith;
  clean = λ e. refl;
}

stored_otherwise-IsBook : IsBook stored_otherwise
unfolding lookup
stored_otherwise-IsBook = record {
  bids = record { keys = (refl, (refl, tt)); sizes = (λ e. cc, (λ e. cc, tt)) };
  asks = record { keys = (refl, tt); sizes = (λ e. cc, tt) };
  fits = omega arith;
  clean = λ e. refl;
}

same_sizes :
    (asks : Bool) (p : ℤ)
    → lookup p (side_of synced_book asks) ≡ lookup p (side_of stored_otherwise asks)
unfolding lookup
same_sizes true p = refl
same_sizes false p = ground arith

depth_unique_example : depth synced_book (pos 1) ≡ depth stored_otherwise (pos 1)
depth_unique_example =
    depth_unique synced_book stored_otherwise (pos 1) synced_book-IsBook stored_otherwise-IsBook
      same_sizes

top_of_book-depth_example :
    top_of_book synced_book
    ≡ both (head_of (depth synced_book (pos 0)).0) (head_of (depth synced_book (pos 0)).1)
top_of_book-depth_example = top_of_book-depth synced_book synced_book-IsBook

depth-trim_example :
    depth (trim synced_book 1) (pos 0)
    ≡ (take 1 (depth synced_book (pos 0)).0, take 1 (depth synced_book (pos 0)).1)
depth-trim_example = depth-trim synced_book 1 synced_book-IsBook
