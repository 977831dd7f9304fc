-- ===== src/Live/Ordering.antt =====
-- Lemmas about Go's order of strings, and the order of pairs of strings by it.
use mathlib.Core.Bool.{true≢false}
use tickstore.Prelude.{
  Bool, Bool-cases, Bytes, [], arith, bytes_beq_iff, bytes_eq, false, if◌then◌else◌, inl, inr,
  int_eq, nat_eq, refl, subst, sym, true, ◌==◌, ◌∙◌, ◌∷◌, ◌≡◌,
}
use tickstore.Live.Quotes.{bytes_less}

bytes_less-asym : (s t : Bytes) → bytes_less s t ≡ true → bytes_less t s ≡ false
unfolding bytes_less
bytes_less-asym [] [] h = refl
bytes_less-asym [] (d ∷ t) h = refl
bytes_less-asym (c ∷ s) [] h = absurd (true≢false (sym h))
bytes_less-asym (c ∷ s) (d ∷ t) h = ground (arith, bytes_less-asym s t, h)

bytes_less_irrefl : (s : Bytes) → bytes_less s s ≡ false
unfolding bytes_less
bytes_less_irrefl [] = refl
bytes_less_irrefl (c ∷ s) = ground (arith, bytes_less_irrefl s)

bytes_less-total : (s t : Bytes) → bytes_less s t ≡ false → bytes_less t s ≡ false → s ≡ t
unfolding bytes_less
bytes_less-total [] [] h k = refl
bytes_less-total [] (d ∷ t) h k = absurd (true≢false h)
bytes_less-total (c ∷ s) [] h k = absurd (true≢false k)
bytes_less-total (c ∷ s) (d ∷ t) h k =
    let same : c ≡ d = ground (arith, h, k) in
    let rest : s ≡ t = bytes_less-total s t (ground (arith, h, same)) (ground (arith, k, same)) in
    cc (same, rest)

bytes_less_trans :
    (s t u : Bytes) → bytes_less t s ≡ false → bytes_less u t ≡ false → bytes_less u s ≡ false
unfolding bytes_less
bytes_less_trans [] [] u h k = k
bytes_less_trans [] (d ∷ t) [] h k = absurd (true≢false k)
bytes_less_trans [] (d ∷ t) (e ∷ u) h k = refl
bytes_less_trans (c ∷ s) [] u h k = absurd (true≢false h)
bytes_less_trans (c ∷ s) (d ∷ t) [] h k = absurd (true≢false k)
bytes_less_trans (c ∷ s) (d ∷ t) (e ∷ u) h k = ground (arith, bytes_less_trans s t u, h, k)

pair_eq : {s t u v : Bytes} → s ≡ t → u ≡ v → ◌≡◌ {A = Bytes × Bytes} (s, u) (t, v)
pair_eq e h i = (e i, h i)

-- The order of the grid on a base and a venue.
unfoldable pub rank_less : Bytes × Bytes → Bytes × Bytes → Bool
unfolding bytes_less
rank_less p q = if p.0 == q.0 then bytes_less p.1 q.1 else bytes_less p.0 q.0

less_by_venue : (p q : Bytes × Bytes) → p.0 ≡ q.0 → rank_less p q ≡ bytes_less p.1 q.1
unfolding rank_less
less_by_venue p q e = rw ((bytes_beq_iff p.0 q.0).1 e) refl

less_by_base : (p q : Bytes × Bytes) → (p.0 == q.0) ≡ false → rank_less p q ≡ bytes_less p.0 q.0
unfolding rank_less
less_by_base p q e = rw e refl

beq_sym : (s t : Bytes) → (s == t) ≡ false → (t == s) ≡ false
beq_sym s t h = elim (Bool-cases (t == s)) [
  | inr e ↦ e
  | inl e ↦ absurd (true≢false (sym ((bytes_beq_iff s t).1 (sym ((bytes_beq_iff t s).0 e))) ∙ h))
]

pub rank_less-asym : (p q : Bytes × Bytes) → rank_less p q ≡ true → rank_less q p ≡ false
rank_less-asym p q h = elim (Bool-cases (p.0 == q.0)) [
  | inl e ↦
      let same = (bytes_beq_iff p.0 q.0).0 e in
      less_by_venue q p (sym same) ∙ bytes_less-asym p.1 q.1 (sym (less_by_venue p q same) ∙ h)
  | inr e ↦
      less_by_base q p (beq_sym p.0 q.0 e) ∙ bytes_less-asym p.0 q.0 (sym (less_by_base p q e) ∙ h)
]

pub rank_less-total : (p q : Bytes × Bytes) → rank_less p q ≡ false → rank_less q p ≡ false → p ≡ q
rank_less-total p q h k = elim (Bool-cases (p.0 == q.0)) [
  | inl e ↦
      let same = (bytes_beq_iff p.0 q.0).0 e in
      let last : p.1 ≡ q.1 =
        bytes_less-total p.1 q.1 (sym (less_by_venue p q same) ∙ h)
          (sym (less_by_venue q p (sym same)) ∙ k) in
      pair_eq same last
  | inr e ↦
      let same =
        bytes_less-total p.0 q.0 (sym (less_by_base p q e) ∙ h)
          (sym (less_by_base q p (beq_sym p.0 q.0 e)) ∙ k) in
      absurd (true≢false (sym ((bytes_beq_iff p.0 q.0).1 same) ∙ e))
]

pub rank_less_irrefl : (p : Bytes × Bytes) → rank_less p p ≡ false
rank_less_irrefl p = less_by_venue p p refl ∙ bytes_less_irrefl p.1

-- The order of the bases, where a pair is not before another.
base_not_less : (p q : Bytes × Bytes) → rank_less q p ≡ false → bytes_less q.0 p.0 ≡ false
base_not_less p q h = elim (Bool-cases (q.0 == p.0)) [
  | inl e ↦ rw ((bytes_beq_iff q.0 p.0).0 e) (bytes_less_irrefl p.0)
  | inr e ↦ sym (less_by_base q p e) ∙ h
]

pub rank_less_trans :
    (p q r : Bytes × Bytes) → rank_less q p ≡ false → rank_less r q ≡ false → rank_less r p ≡ false
rank_less_trans p q r h k =
    let qp = base_not_less p q h in
    let rq = base_not_less q r k in
    elim (Bool-cases (r.0 == p.0)) [
      | inr e ↦ less_by_base r p e ∙ bytes_less_trans p.0 q.0 r.0 qp rq
      | inl e ↦
          let rp = (bytes_beq_iff r.0 p.0).0 e in
          let pq : p.0 ≡ q.0 =
            bytes_less-total p.0 q.0 (subst (λ b. bytes_less b q.0 ≡ false) rp rq) qp in
          let venues =
            bytes_less_trans p.1 q.1 r.1 (sym (less_by_venue q p (sym pq)) ∙ h)
              (sym (less_by_venue r q (rp ∙ pq)) ∙ k) in
          less_by_venue r p rp ∙ venues
    ]
