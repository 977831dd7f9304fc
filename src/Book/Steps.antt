-- ===== src/Book/Steps.antt =====
-- Lemmas about the branches of `Apply` in internal/book/book.go.
use tickstore.Prelude.{
  Bool-cases, arith, false, inl, inr, ltb, ltb→lt, lt→ltb, not, refl, true, u64_mod, ℕ, ℤ, ◌+◌, ◌<◌,
  ◌≡◌,
}
use tickstore.Norm.{BookUpdate, Side, sell}
use tickstore.Book.{Book, apply, apply_delta, buffer, incr64}

pub incr64_next : (n : ℕ) → n + 1 < u64_mod → incr64 n ≡ n + 1
incr64_next n h = omega arith

-- The book at a gap, with the update that showed it in the buffer.
abbrev pub after_gap : Book → BookUpdate → Book
after_gap b u = buffer (record b { gaps = incr64 b.gaps; synced = false }) u

-- The book with the expected update applied.
abbrev pub after_delta : Book → BookUpdate → Book
after_delta b u = record (apply_delta b u.side u.price u.size) { last_seq = u.seq }

module _ (b : Book) (u : BookUpdate) where
  pub apply_unsynced : b.synced ≡ false → apply b u ≡ (buffer b u, true)
  unfolding apply
  apply_unsynced off = simp off

  pub apply_old : b.synced ≡ true → u.seq < incr64 b.last_seq → apply b u ≡ (b, false)
  unfolding apply
  apply_old on old = simp (on, lt→ltb _ _ old)

  pub apply_gap : b.synced ≡ true → incr64 b.last_seq < u.seq → apply b u ≡ (after_gap b u, true)
  unfolding apply
  apply_gap on gap = simp on (ground arith)

  pub apply_next :
      b.synced ≡ true → u.seq ≡ incr64 b.last_seq → apply b u ≡ (after_delta b u, false)
  unfolding apply
  apply_next on next = simp on (ground arith)

-- Which branch an update takes.
pub data Branch (b : Book) (u : BookUpdate) : Type 0 where
  waits : b.synced ≡ false → Branch b u
  is_old : b.synced ≡ true → u.seq < incr64 b.last_seq → Branch b u
  is_ahead : b.synced ≡ true → incr64 b.last_seq < u.seq → Branch b u
  is_next : b.synced ≡ true → u.seq ≡ incr64 b.last_seq → Branch b u

pub apply-Branch : (b : Book) (u : BookUpdate) → Branch b u
apply-Branch b u = elim (Bool-cases b.synced) [
  | inr off ↦ waits off
  | inl on ↦ elim (Bool-cases (ltb u.seq (incr64 b.last_seq))) [
    | inl old ↦ is_old on (ltb→lt _ _ old)
    | inr fresh ↦ elim (Bool-cases (ltb (incr64 b.last_seq) u.seq)) [
      | inl gap ↦ is_ahead on (ltb→lt _ _ gap)
      | inr next ↦ is_next on (ground arith)
    ]
  ]
]

pub buffer_fields :
    (b : Book) (u : BookUpdate)
    → ((buffer b u).bids ≡ b.bids)
      × ((buffer b u).asks ≡ b.asks)
      × ((buffer b u).synced ≡ b.synced)
      × ((buffer b u).last_seq ≡ b.last_seq)
unfolding buffer
buffer_fields b u = ground arith

pub apply_delta_fields :
    (b : Book) (side : Side) (p s : ℤ)
    → ((apply_delta b side p s).synced ≡ b.synced)
      × ((apply_delta b side p s).pending ≡ b.pending)
      × ((apply_delta b side p s).gaps ≡ b.gaps)
      × ((apply_delta b side p s).resyncs ≡ b.resyncs)
      × ((apply_delta b side p s).dropped ≡ b.dropped)
unfolding apply_delta
apply_delta_fields b sell p s = (refl, refl, refl, refl, refl)
apply_delta_fields b _ p s = (refl, refl, refl, refl, refl)

-- `Apply` asks for a snapshot exactly when it leaves the book unsynced.
apply-needs_snapshot : (b : Book) (u : BookUpdate) → (apply b u).1 ≡ not (apply b u).0.synced
apply-needs_snapshot b u = elim (apply-Branch b u) [
  | waits off ↦ rw (apply_unsynced b u off) (cc (off, (buffer_fields b u).2))
  | is_old on old ↦ rw (apply_old b u on old) (cc on)
  | is_ahead on gap ↦
      rw (apply_gap b u on gap)
        (cc ((buffer_fields (record b { gaps = incr64 b.gaps; synced = false }) u).2))
  | is_next on next ↦
      rw (apply_next b u on next) (cc (on, (apply_delta_fields b u.side u.price u.size).0))
]
