-- ===== src/Sink/Stats/Scanned.antt =====
-- Lemmas about a loop of internal/sink/stats.go over the rows of an answer.
use tickstore.Prelude.{
  Bool, List, Option, [], ap, err_not_ok, false, map, none, ok, ok_inj, refl, some, true, >>=-eq-ok,
  ◌∙◌, ◌∷◌, ◌≡◌, sym,
}
use tickstore.Sink.Stats.{or_broken, scan_points}

module _ {R P : Type 0} (point : R → P) where
  pub scan_points-inv :
      (rs : List (Option R)) (out : List P)
      → scan_points point rs ≡ ok out
      → (scanned : List R) × (rs ≡ map some scanned) × (out ≡ map point scanned)
  unfolding scan_points
  scan_points-inv [] out h = ([], refl, sym (ok_inj h))
  scan_points-inv (none ∷ rs) out h = absurd (err_not_ok h)
  scan_points-inv (some r ∷ rs) out h =
      let (later, e, f) = >>=-eq-ok (scan_points point rs) (λ ps. ok (point r ∷ ps)) h in
      let (scanned, same, made) = scan_points-inv rs later e in
      (r ∷ scanned, ap (◌∷◌ (some r)) same, sym (ok_inj f) ∙ ap (◌∷◌ (point r)) made)

  pub scan_points_all :
      (scanned : List R) → scan_points point (map some scanned) ≡ ok (map point scanned)
  unfolding scan_points
  scan_points_all [] = refl
  scan_points_all (r ∷ rs) = rw (scan_points_all rs) refl

pub or_broken-inv :
    {A : Type 0} (broken : Bool) (a : A) {b : A}
    → or_broken broken a ≡ ok b
    → (broken ≡ false) × (a ≡ b)
or_broken-inv false a h = (refl, ok_inj h)
or_broken-inv true a h = absurd (err_not_ok h)
