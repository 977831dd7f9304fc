-- ===== src/Book/Resync.antt =====
-- `ApplySnapshot` of internal/book/book.go and its replay of the buffer, against a reference book.
use mathlib.Core.List.{Perm}
use mathlib.Core.List.Perm
use mathlib.Core.Logic.{if_neg}
use native.Mathlib.Decide.{dec_lt}
use tickstore.Prelude.{
  All, IsRun, IsSorted, List, [], above, above_of_perm, above_sorted, arith, false, key_less,
  length, refl, sort_slice, sort_slice-IsSorted, sort_slice-perm, true, u64_mod, ℕ, ◌++◌, ◌+◌, ◌<◌,
  ◌∙◌, ◌∷◌, ◌≡◌, ◌≤◌,
}
use tickstore.Norm.{BookSnapshot, BookUpdate}
use tickstore.Book.{Book, apply_snapshot, incr64, replay, seed, seq_less}
use tickstore.Book.Steps.{after_delta, apply_delta_fields, apply_next, apply_old}

abbrev pub seq_of : BookUpdate → ℕ
seq_of u = u.seq

-- The reference book: every update is applied in its place, with no check of its number.
unfoldable pub reference : Book → List BookUpdate → Book
reference b [] = b
reference b (u ∷ us) = reference (after_delta b u) us

BookUpdate-set : IsSet BookUpdate
BookUpdate-set = hlevel

-- A synced book that is given a run from its next number is the reference book.
pub replay_run :
    (us : List BookUpdate) (b : Book)
    → b.synced ≡ true
    → IsRun seq_of (b.last_seq + 1) us
    → b.last_seq + length us < u64_mod
    → replay b us ≡ reference b us
unfolding replay reference
replay_run [] b on run fits = refl
replay_run (u ∷ us) b on run fits =
    let next : u.seq ≡ incr64 b.last_seq = omega (arith, run.0) in
    rw (apply_next b u on next) (
      replay_run us (after_delta b u) ((apply_delta_fields b u.side u.price u.size).0 ∙ on)
        (rw run.0 run.1) (omega (arith, run.0)))

-- Of a sorted buffer only what is above the book's number has an effect.
pub replay-above :
    (us : List BookUpdate) (b : Book)
    → b.synced ≡ true
    → b.last_seq + 1 < u64_mod
    → IsSorted (key_less seq_of) us
    → replay b us ≡ replay b (above seq_of b.last_seq us)
unfolding replay
replay-above [] b on fits sorted = refl
replay-above (u ∷ us) b on fits sorted = elim (dec_lt b.last_seq u.seq) [
  | yes q ↦ rw (above_sorted seq_of b.last_seq u us sorted q)
  | no q ↦
      let old : u.seq < incr64 b.last_seq = omega arith in
      rw (apply_old b u on old, if_neg _ q) (replay-above us b on fits sorted.1)
]

seq_less_trans :
    (u v w : BookUpdate) → seq_less v u ≡ false → seq_less w v ≡ false → seq_less w u ≡ false
seq_less_trans u v w h k = ground arith

-- A book whose buffer holds, in whatever order they arrived, updates that the snapshot covers
-- already and the unbroken run of updates behind it, is after the snapshot the reference book: the
-- snapshot's levels with every update of the run applied in order.
pub apply_snapshot-eq-reference :
    (b : Book) (s : BookSnapshot) (stale run : List BookUpdate)
    → Perm b.pending (stale ++ run)
    → All (λ u. u.seq ≤ s.seq) stale
    → IsRun seq_of (s.seq + 1) run
    → s.seq + 1 + length run < u64_mod
    → apply_snapshot b s ≡ reference (seed b s) run
unfolding apply_snapshot
apply_snapshot-eq-reference b s stale run p old next fits =
    let us = sort_slice seq_less b.pending in
    let sorted : IsSorted (key_less seq_of) us =
      sort_slice-IsSorted seq_less (λ u v h. ground arith) seq_less_trans b.pending in
    let e : above seq_of s.seq us ≡ run =
      above_of_perm seq_of BookUpdate-set s.seq us stale run sorted old next
        (Perm.trans (sort_slice-perm seq_less b.pending) p) in
    unfold seed in
    replay-above us (seed b s) refl (omega arith) sorted
    ∙ rw e (replay_run run (seed b s) refl next (omega arith))
