-- ===== src/Book/Numbered.antt =====
-- Lemmas about a book whose updates a connector numbers itself (the book feeds of internal/venue).
use mathlib.Core.List.Perm
use tickstore.Prelude.{
  All, All-append, All-drop, Bool, Bool-cases, Bytes, List, [], ap, append-nil, arith, drop, inl,
  inr, leb, length, refl, true, u64_mod, ℕ, ◌+◌, ◌<◌, ◌∙◌, ◌∷◌, ◌≡◌, ◌≤◌,
}
use tickstore.Norm.{BookSnapshot, BookUpdate}
use tickstore.Book.{
  Book, apply, apply_delta, apply_snapshot, buffer, incr64, max_pending, new, seed, trim,
}
use tickstore.Book.Steps.{
  after_delta, apply_delta_fields, apply_next, apply_unsynced, buffer_fields,
}
use tickstore.Book.Resync.{apply_snapshot-eq-reference, reference}

-- `n` is the last number given. A synced book is at it, and what waits in the buffer is not above.
pub record Numbered (b : Book) (n : ℕ) : Type 0 where
  pub linked : b.synced ≡ true → b.last_seq ≡ n
  pub waiting : All (λ u. u.seq ≤ n) b.pending
  pub no_gaps : b.gaps ≡ 0

pub new-Numbered : (venue symbol : Bytes) → Numbered (new venue symbol) 0
unfolding new
new-Numbered venue symbol = record { linked = λ e. cc; waiting = tt; no_gaps = refl }

waiting_mono :
    (m n : ℕ) (us : List BookUpdate) → m ≤ n → All (λ u. u.seq ≤ m) us → All (λ u. u.seq ≤ n) us
waiting_mono m n [] h a = tt
waiting_mono m n (u ∷ us) h a = (omega (arith, a.0), waiting_mono m n us h a.1)

buffer-gaps : (b : Book) (u : BookUpdate) → (buffer b u).gaps ≡ b.gaps
unfolding buffer
buffer-gaps b u = ground arith

buffer-waiting :
    (b : Book) (u : BookUpdate) (n : ℕ)
    → All (λ v. v.seq ≤ n) b.pending
    → u.seq ≤ n
    → All (λ v. v.seq ≤ n) (buffer b u).pending
unfolding buffer
buffer-waiting b u n h hu = elim (Bool-cases (leb max_pending (length b.pending))) [
  | inl full ↦ rw full (
      All-append (λ v. v.seq ≤ n) (drop 1 b.pending) (u ∷ [])
        (All-drop (λ v. v.seq ≤ n) 1 b.pending h) (hu, tt))
  | inr room ↦ rw room (All-append (λ v. v.seq ≤ n) b.pending (u ∷ []) h (hu, tt))
]

-- The next number keeps the book in step.
pub apply-Numbered :
    (b : Book) (u : BookUpdate) (n : ℕ)
    → Numbered b n
    → n + 1 < u64_mod
    → u.seq ≡ n + 1
    → Numbered (apply b u).0 (n + 1)
apply-Numbered b u n h fits e = elim (Bool-cases b.synced) [
  | inr off ↦ rw (apply_unsynced b u off) (record {
    linked = λ z. cc (z, off, (buffer_fields b u).2);
    waiting =
        buffer-waiting b u (n + 1) (waiting_mono n (n + 1) b.pending (omega arith) h.waiting)
          (omega arith);
    no_gaps = buffer-gaps b u ∙ h.no_gaps;
  })
  | inl on ↦
      let next : u.seq ≡ incr64 b.last_seq = omega (arith, h.linked on) in
      let same : All (λ v. v.seq ≤ n + 1) (apply_delta b u.side u.price u.size).pending =
        rw (apply_delta_fields b u.side u.price u.size).1
          (waiting_mono n (n + 1) b.pending (omega arith) h.waiting) in
      rw (apply_next b u on next) (record {
        linked = λ z. e;
        waiting = same;
        no_gaps = (apply_delta_fields b u.side u.price u.size).2 ∙ h.no_gaps;
      })
]

-- The next number leaves a synced book synced, with the update applied.
pub apply-Numbered_step :
    (b : Book) (u : BookUpdate) (n : ℕ)
    → Numbered b n
    → b.synced ≡ true
    → n + 1 < u64_mod
    → u.seq ≡ n + 1
    → (apply b u).0 ≡ after_delta b u
apply-Numbered_step b u n h on fits e =
    let next : u.seq ≡ incr64 b.last_seq = omega (arith, h.linked on) in
    ap (λ (r : Book × Bool). r.0) (apply_next b u on next)

-- A snapshot under the next number seeds the book: nothing that waited is above it.
pub snapshot-Numbered_step :
    (b : Book) (s : BookSnapshot) (n : ℕ)
    → Numbered b n
    → s.seq ≡ n + 1
    → n + 2 < u64_mod
    → apply_snapshot b s ≡ seed b s
unfolding reference
snapshot-Numbered_step b s n h e fits =
    apply_snapshot-eq-reference b s b.pending [] (rw (append-nil b.pending) (Perm.refl b.pending))
      (rw e (waiting_mono n (n + 1) b.pending (omega arith) h.waiting)) tt (omega arith)

pub snapshot-Numbered :
    (b : Book) (s : BookSnapshot) (n : ℕ)
    → Numbered b n
    → s.seq ≡ n + 1
    → n + 2 < u64_mod
    → Numbered (apply_snapshot b s) (n + 1)
snapshot-Numbered b s n h e fits =
    rw (snapshot-Numbered_step b s n h e fits)
      (unfold seed in record { linked = λ z. e; waiting = tt; no_gaps = h.no_gaps })

pub snapshot-synced :
    (b : Book) (s : BookSnapshot) (n : ℕ)
    → Numbered b n
    → s.seq ≡ n + 1
    → n + 2 < u64_mod
    → (apply_snapshot b s).synced ≡ true
snapshot-synced b s n h e fits = rw (snapshot-Numbered_step b s n h e fits) (unfold seed in refl)

pub trim-Numbered : (b : Book) (n k : ℕ) → Numbered b n → Numbered (trim b k) n
unfolding trim
trim-Numbered b n k h = record { linked = h.linked; waiting = h.waiting; no_gaps = h.no_gaps }

pub trim-synced : (b : Book) (k : ℕ) → (trim b k).synced ≡ b.synced
unfolding trim
trim-synced b k = refl
