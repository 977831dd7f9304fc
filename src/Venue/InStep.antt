-- ===== src/Venue/InStep.antt =====
-- Lemmas about the books of a connector of internal/venue that numbers its updates itself.
use tickstore.Prelude.{
  AllValues, AllValues-weaken, Assoc, Bytes, Option, Option-cases, arith, bytes_eq, inl, inr,
  int_eq, lookup, lookup-AllValues, nat_eq, none, some, subst, sym, u64_mod, ℕ, ◌+◌, ◌<◌, ◌∙◌, ◌≡◌,
  ◌≤◌,
}
use tickstore.Norm.{BookSnapshot, BookUpdate}
use tickstore.Book.{Book, apply, apply_snapshot, incr64}
use tickstore.Book.Steps.{incr64_next}
use tickstore.Book.Numbered.{Numbered, apply-Numbered, snapshot-Numbered}

-- The next update, and a snapshot, under the next number.
pub apply_next-Numbered :
    (b : Book) (seq n : ℕ) (u : BookUpdate)
    → Numbered b seq
    → seq ≤ n
    → n + 2 < u64_mod
    → u.seq ≡ incr64 seq
    → Numbered (apply b u).0 (incr64 seq) × (incr64 seq ≤ n + 1)
apply_next-Numbered b seq n u h low fits e =
    let g : incr64 seq ≡ seq + 1 = incr64_next seq (omega arith) in
    (
      subst (Numbered (apply b u).0) (sym g) (apply-Numbered b u seq h (omega arith) (e ∙ g)),
      omega (arith, g, low),
    )

pub snapshot_next-Numbered :
    (b : Book) (seq n : ℕ) (s : BookSnapshot)
    → Numbered b seq
    → seq ≤ n
    → n + 2 < u64_mod
    → s.seq ≡ incr64 seq
    → Numbered (apply_snapshot b s) (incr64 seq) × (incr64 seq ≤ n + 1)
snapshot_next-Numbered b seq n s h low fits e =
    let g : incr64 seq ≡ seq + 1 = incr64_next seq (omega arith) in
    (
      subst (Numbered (apply_snapshot b s)) (sym g)
          (snapshot-Numbered b s seq h (e ∙ g) (omega arith)),
      omega (arith, g, low),
    )

-- `S` is the connector's record of a book.
module _ {S : Type 0} (book_of : S → Book) (seq_of : S → ℕ) where
  -- A book that stands at the number given last, which is at most `n`.
  abbrev pub InStepBelow : ℕ → S → Type 0
  InStepBelow n s = Numbered (book_of s) (seq_of s) × (seq_of s ≤ n)

  pub below_more : (m n : ℕ) (s : S) → m ≤ n → InStepBelow m s → InStepBelow n s
  below_more m n s h a = (a.0, omega (arith, a.1))

  pub all_below_more :
      (m n : ℕ) (books : Assoc Bytes S)
      → m ≤ n
      → AllValues (InStepBelow m) books
      → AllValues (InStepBelow n) books
  all_below_more m n books h =
      AllValues-weaken (InStepBelow m) (InStepBelow n) books (λ s. below_more m n s h)

  -- The book that is found, or the new one.
  pub found_below :
      (find : Option S → S) (n : ℕ) (symbol : Bytes) (books : Assoc Bytes S)
      → InStepBelow n (find none)
      → ((s : S) → find (some s) ≡ s)
      → AllValues (InStepBelow n) books
      → InStepBelow n (find (lookup symbol books))
  found_below find n symbol books fresh found a = elim (Option-cases (lookup symbol books)) [
    | inl e ↦ rw e fresh
    | inr (s, e) ↦
        rw e (
          subst (InStepBelow n) (sym (found s)) (lookup-AllValues (InStepBelow n) symbol books a e))
  ]
