-- ===== src/Book/Levels.antt =====
-- The size that a book of internal/book/book.go holds at a price, around `Apply` and `Depth`.
use tickstore.Prelude.{
  Bool, Bool-cases, Option, arith, bytes_eq, false, if◌then◌else◌, inl, inr, int_eq, lookup,
  lookup-delete, lookup-insert, nat_beq_iff, nat_eq, none, not, pos, refl, some, true, ℕ, ℤ, ◌&&◌,
  ◌==◌, ◌∙◌, ◌≡◌, ◌≢◌,
}
use tickstore.Norm.{BookUpdate, Side, buy, sell, side_unknown}
use tickstore.Book.{Book, Levels, apply, apply_delta, buffer, incr64, set_level}
use tickstore.Book.Views.{depth}
use tickstore.Book.Steps.{
  after_delta, apply_gap, apply_next, apply_old, apply_unsynced, apply-Branch, buffer_fields,
  is_ahead, is_next, is_old, waits,
}
use tickstore.Book.Invariant.{IsBook}
use tickstore.Book.Depth.{sorted_levels_unique}

abbrev pub is_sell : Side → Bool
is_sell sell = true
is_sell _ = false

-- The side of a book: asks, or bids.
abbrev pub side_of : Book → Bool → Levels
side_of b true = b.asks
side_of b false = b.bids

abbrev pub size_or_none : ℤ → Option ℤ
size_or_none s = if s == pos 0 then none else some s

pub lookup-set_level :
    (p s q : ℤ) (m : Levels)
    → lookup q (set_level p s m) ≡ (if p == q then size_or_none s else lookup q m)
unfolding set_level
lookup-set_level p s q m = elim (Bool-cases (s == pos 0)) [
  | inl z ↦ rw z (lookup-delete p q m)
  | inr z ↦ rw z (lookup-insert p q s m)
]

abbrev same_side : Bool → Bool → Bool
same_side true b = b
same_side false b = not b

-- An update is applied where the book is synced and waits for its number.
abbrev pub is_expected : Book → BookUpdate → Bool
is_expected b u = b.synced && u.seq == incr64 b.last_seq

abbrev pub hits : BookUpdate → Bool → ℤ → Bool
hits u asks p = same_side (is_sell u.side) asks && u.price == p

delta_levels :
    (b : Book) (u : BookUpdate) (asks : Bool) (p : ℤ)
    → lookup p (side_of (after_delta b u) asks)
      ≡ (if hits u asks p then size_or_none u.size else lookup p (side_of b asks))
delta_levels b u asks p = go u.side asks
  where
    go :
        (s : Side) (a : Bool)
        → lookup p (side_of (apply_delta b s u.price u.size) a) ≡ (
            if same_side (is_sell s) a && u.price == p
            then size_or_none u.size
            else lookup p (side_of b a))
    go sell true = unfold apply_delta in lookup-set_level u.price u.size p b.asks
    go sell false = unfold apply_delta in refl
    go buy true = unfold apply_delta in refl
    go buy false = unfold apply_delta in lookup-set_level u.price u.size p b.bids
    go side_unknown true = unfold apply_delta in refl
    go side_unknown false = unfold apply_delta in lookup-set_level u.price u.size p b.bids

not_next : (m n : ℕ) → m ≢ n → (m == n) ≡ false
not_next m n h = ground arith

buffer_sides :
    (b : Book) (u : BookUpdate) (asks : Bool) → side_of (buffer b u) asks ≡ side_of b asks
buffer_sides b u true = (buffer_fields b u).1
buffer_sides b u false = (buffer_fields b u).0

-- The expected update sets the level at its price and side (or clears it, at size zero); every other
-- level, and every level under any other update, is as before.
pub apply-levels :
    (b : Book) (u : BookUpdate) (asks : Bool) (p : ℤ)
    → lookup p (side_of (apply b u).0 asks) ≡ (
        if is_expected b u && hits u asks p then size_or_none u.size else lookup p (side_of b asks))
apply-levels b u asks p = elim (apply-Branch b u) [
  | waits off ↦ rw (apply_unsynced b u off) (rw (buffer_sides b u asks) (simp off))
  | is_old on old ↦
      rw (apply_old b u on old) (simp (on, not_next u.seq (incr64 b.last_seq) (omega arith)))
  | is_ahead on gap ↦ rw (apply_gap b u on gap) (
      rw (buffer_sides (record b { gaps = incr64 b.gaps; synced = false }) u asks)
        (unsynced_sides b asks ∙ simp (on, not_next u.seq (incr64 b.last_seq) (omega arith))))
  | is_next on next ↦
      rw (apply_next b u on next)
        (delta_levels b u asks p ∙ simp (on, (nat_beq_iff u.seq (incr64 b.last_seq)).1 next))
]
  where
    unsynced_sides :
        (b : Book) (a : Bool)
        → lookup p (side_of (record b { gaps = incr64 b.gaps; synced = false }) a)
          ≡ lookup p (side_of b a)
    unsynced_sides b true = refl
    unsynced_sides b false = refl

-- Books that hold the same sizes at the same prices show the same depth, whatever order their maps
-- are stored and ranged over in.
pub depth_unique :
    (b c : Book) (n : ℤ)
    → IsBook b
    → IsBook c
    → ((asks : Bool) (p : ℤ) → lookup p (side_of b asks) ≡ lookup p (side_of c asks))
    → depth b n ≡ depth c n
unfolding depth
depth_unique b c n hb hc same = rw (
  sorted_levels_unique true b.bids c.bids hb.bids.keys hc.bids.keys (same false),
  sorted_levels_unique false b.asks c.asks hb.asks.keys hc.asks.keys (same true),
)
