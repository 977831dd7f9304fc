-- ===== src/Dashboard/Window.antt =====
-- The windows of the handler `history` in internal/dashboard/server.go.
use tickstore.Prelude.{
  +ℤ_parts, All, Bool-cases, Bytes, List, Option-cases, [], arith, bytes_eq, inl, inr, int_eq,
  lookup, lookup-AllValues, ltb_ℤ, lt→ltb_ℤ, nat_eq, neg_ℤ, neg_ℤ_parts, not, pos, pos_part-le,
  refl, some, some_inj, subst, true, ℕ, ◌&&◌, ◌*ℤ◌, ◌*◌, ◌+ℤ◌, ◌/◌, ◌<◌, ◌==◌, ◌∷◌, ◌≡◌, ◌≤ℤ◌, ◌≤◌,
  ◌⊎◌,
}
use tickstore.Norm.{Time}
use tickstore.Norm.Decimal.{parse_int_or_limit}
use tickstore.Dashboard.{second}
use tickstore.Dashboard.Range.{
  Window, before, bucket_for, bucket_steps, custom_window, earlier, first_step, history_window,
  later, or_hour, preset_window, range_buckets, retention, span_seconds,
}

-- A window in the past, within the longest retention, with fewer than 160 whole buckets.
pub record IsServed (now : Time) (w : Window) : Type 0 where
  pub retained : before now retention ≤ℤ w.from
  pub ordered : ltb_ℤ w.from w.to ≡ true
  pub past : w.to ≤ℤ now
  pub positive : 0 < w.bucket_sec
  pub few : span_seconds w.from w.to < 160 * w.bucket_sec

first_step-reaches :
    (target : ℕ) (steps : List ℕ)
    → (target ≤ first_step target steps) ⊎ (first_step target steps ≡ 86400)
unfolding first_step
first_step-reaches target [] = inr refl
first_step-reaches target (s ∷ steps) = ground (arith, first_step-reaches target steps)

first_step-positive :
    (target : ℕ) (steps : List ℕ) → All (λ s. 0 < s) steps → 0 < first_step target steps
unfolding first_step
first_step-positive target [] h = omega arith
first_step-positive target (s ∷ steps) h = ground (arith, first_step-positive target steps h.1)

bucket_for-few :
    (span : ℕ) → span ≤ 90 * 86400 → (0 < bucket_for span) × (span < 160 * bucket_for span)
unfolding bucket_for
bucket_for-few span h =
    let p = first_step-positive (span / 80) bucket_steps (omega arith) in
    elim (first_step-reaches (span / 80) bucket_steps) [
      | inl e ↦ (p, omega arith)
      | inr e ↦ (p, omega arith)
    ]

span-le :
    (now from to : Time)
    → before now retention ≤ℤ from
    → to ≤ℤ now
    → span_seconds from to ≤ 90 * 86400
span-le now from to h k =
    let span = pos_part-le (to +ℤ neg_ℤ from) retention (
      omega (
        arith,
        +ℤ_parts to (neg_ℤ from),
        neg_ℤ_parts from,
        +ℤ_parts now (neg_ℤ (pos retention)),
        neg_ℤ_parts (pos retention),
      )) in
    omega (arith, span)

earlier-le : (s t : Time) → (earlier s t ≤ℤ t)
earlier-le s t = ground arith

le-later : (s t : Time) → t ≤ℤ later s t
le-later s t = ground arith

custom_window-IsServed :
    (fs ts : Bytes) (now : Time) {w : Window} → custom_window fs ts now ≡ some w → IsServed now w
unfolding custom_window
custom_window-IsServed fs ts now {w} h =
    let to = earlier (parse_int_or_limit ts *ℤ pos 1_000_000) now in
    let from = later (parse_int_or_limit fs *ℤ pos 1_000_000) (before now retention) in
    let past : to ≤ℤ now = earlier-le (parse_int_or_limit ts *ℤ pos 1_000_000) now in
    let kept : before now retention ≤ℤ from =
      le-later (parse_int_or_limit fs *ℤ pos 1_000_000) (before now retention) in
    elim (Bool-cases (ltb_ℤ from to)) [
      | inl e ↦
          let (positive, few) =
            bucket_for-few (span_seconds from to) (span-le now from to kept past) in
          subst (IsServed now) (some_inj (rw e at h))
            (record { retained = kept; ordered = e; past = past; positive = positive; few = few })
      | inr e ↦ absurd (cc (rw e at h))
    ]

before-IsServed :
    (now : Time) (window bucket : ℕ)
    → 0 < window
    → window ≤ 90 * 86400
    → window < 160 * bucket
    → IsServed now (record { from = before now (window * second); to = now; bucket_sec = bucket })
before-IsServed now window bucket h k l =
    let d = window * second in
    let parts = +ℤ_parts now (neg_ℤ (pos d)) in
    let minus = neg_ℤ_parts (pos d) in
    record {
      retained =
          omega (
            arith,
            parts,
            minus,
            +ℤ_parts now (neg_ℤ (pos retention)),
            neg_ℤ_parts (pos retention),
          );
      ordered = lt→ltb_ℤ (before now d) now (omega (arith, parts, minus));
      past = omega arith;
      positive = omega arith;
      few =
          let span = pos_part-le (now +ℤ neg_ℤ (before now d)) d (
            omega (
              arith,
              parts,
              minus,
              +ℤ_parts now (neg_ℤ (before now d)),
              neg_ℤ_parts (before now d),
            )) in
          omega (arith, span);
    }

abbrev IsPreset : ℕ × ℕ → Type 0
IsPreset rb = (0 < rb.0) × (rb.0 ≤ 90 * 86400) × (rb.0 < 160 * rb.1)

or_hour-IsPreset : (range : Bytes) → IsPreset (or_hour (lookup range range_buckets))
or_hour-IsPreset range = elim (Option-cases (lookup range range_buckets)) [
  | inl e ↦ rw e (omega arith)
  | inr (rb, e) ↦ rw e (lookup-AllValues IsPreset range range_buckets (omega arith) e)
]

preset_window-IsServed : (range : Bytes) (now : Time) → IsServed now (preset_window range now)
unfolding preset_window
preset_window-IsServed range now =
    let rb = or_hour (lookup range range_buckets) in
    let (h, k, l) = or_hour-IsPreset range in before-IsServed now rb.0 rb.1 h k l

-- Whatever the query says, a window that is served lies in the past and within the longest retention,
-- is not empty, and has fewer than 160 whole buckets, which are a second long or longer.
pub history_window-IsServed :
    (fs ts range : Bytes) (now : Time) {w : Window}
    → history_window fs ts range now ≡ some w
    → IsServed now w
unfolding history_window
history_window-IsServed fs ts range now {w} h =
    elim (Bool-cases (not (fs == []) && not (ts == []))) [
      | inl e ↦ custom_window-IsServed fs ts now (rw e at h)
      | inr e ↦ subst (IsServed now) (some_inj (rw e at h)) (preset_window-IsServed range now)
    ]
