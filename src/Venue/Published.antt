-- ===== src/Venue/Published.antt =====
-- Lemmas about the books that a step of internal/venue shows to the observer.
use tickstore.Prelude.{
  All, All-append, Bool-cases, List, [], arith, if◌then◌else◌, inl, inr, refl, suc, ℕ, ◌++◌, ◌∷◌,
  ◌≡◌,
}
use tickstore.Norm.{BookSnapshot, BookUpdate, Level, Side, buy, sell}
use tickstore.Book.{Book}
use tickstore.Venue.Feed.{
  Effect, Ports, count_gap, count_resync, emit, emit_snapshot, observe, observed, store, stored,
}

unfoldable pub observations : List Effect → List Book
observations [] = []
observations (stored u ∷ es) = observations es
observations (observed b ∷ es) = b ∷ observations es
observations (count_gap ∷ es) = observations es
observations (count_resync ∷ es) = observations es

-- The gaps that a step counts in the metrics.
unfoldable pub gaps_counted : List Effect → ℕ
gaps_counted [] = 0
gaps_counted (stored u ∷ es) = gaps_counted es
gaps_counted (observed b ∷ es) = gaps_counted es
gaps_counted (count_gap ∷ es) = suc (gaps_counted es)
gaps_counted (count_resync ∷ es) = gaps_counted es

-- Effects that only store rows.
abbrev pub IsStored : Effect → Type 0
IsStored (stored u) = Unit
IsStored _ = ⊥

pub observations-stored :
    (es fs : List Effect) → All IsStored es → observations (es ++ fs) ≡ observations fs
unfolding observations
observations-stored [] fs h = refl
observations-stored (stored u ∷ es) fs h = observations-stored es fs h.1
observations-stored (observed b ∷ es) fs h = absurd h.0
observations-stored (count_gap ∷ es) fs h = absurd h.0
observations-stored (count_resync ∷ es) fs h = absurd h.0

pub gaps_counted-stored :
    (es fs : List Effect) → All IsStored es → gaps_counted (es ++ fs) ≡ gaps_counted fs
unfolding gaps_counted
gaps_counted-stored [] fs h = refl
gaps_counted-stored (stored u ∷ es) fs h = gaps_counted-stored es fs h.1
gaps_counted-stored (observed b ∷ es) fs h = absurd h.0
gaps_counted-stored (count_gap ∷ es) fs h = absurd h.0
gaps_counted-stored (count_resync ∷ es) fs h = absurd h.0

pub store-IsStored : (p : Ports) (u : BookUpdate) → All IsStored (store p u)
store-IsStored p u = elim (Bool-cases p.has_sink) [ inl e ↦ rw e (tt, tt) | inr e ↦ rw e tt ]

emit-IsStored : (s : BookSnapshot) (side : Side) (ls : List Level) → All IsStored (emit s side ls)
unfolding emit
emit-IsStored s side [] = tt
emit-IsStored s side (l ∷ ls) = (tt, emit-IsStored s side ls)

pub emit_snapshot-IsStored : (p : Ports) (s : BookSnapshot) → All IsStored (emit_snapshot p s)
unfolding emit_snapshot
emit_snapshot-IsStored p s = elim (Bool-cases p.has_sink) [
  | inl e ↦ rw e (
      All-append IsStored (emit s buy s.bids) (emit s sell s.asks) (emit-IsStored s buy s.bids)
        (emit-IsStored s sell s.asks))
  | inr e ↦ rw e tt
]

pub observations-observe :
    (p : Ports) (b : Book) → observations (observe p b) ≡ (if p.has_observer then b ∷ [] else [])
unfolding observations
observations-observe p b = ground arith

pub gaps_counted-observe : (p : Ports) (b : Book) → gaps_counted (observe p b) ≡ 0
unfolding gaps_counted
gaps_counted-observe p b = ground arith
