-- ===== src/Prelude/Values.antt =====
-- Lemmas about predicates on the values of a map.
use mathlib.Core.Path.{◌≡◌, subst}
use mathlib.Core.Bool.{true}
use mathlib.Core.Option.{some}
use mathlib.Core.List.{[], ◌∷◌}
use mathlib.Core.Logic.{inl, inr}
use tickstore.Prelude.Tests.{◌==◌, Eq, Bool-cases}
use tickstore.Prelude.Maps.{Assoc, lookup, insert}

module _ {ℓ κ μ} {K : Type ℓ} {V : Type κ} ⦃e : Eq K⦄ (P : V → Type μ) where
  abbrev pub AllValues : Assoc K V → Type μ
  AllValues [] = Unit
  AllValues ((k, v) ∷ m) = P v × AllValues m

  pub insert-AllValues :
      (k : K) (v : V) (m : Assoc K V) → P v → AllValues m → AllValues (insert k v m)
  unfolding insert
  insert-AllValues k v [] h a = (h, tt)
  insert-AllValues k v ((j, w) ∷ m) h a = elim (Bool-cases (j == k)) [
    | inl q ↦ rw q (h, a.1)
    | inr q ↦ rw q (a.0, insert-AllValues k v m h a.1)
  ]

  pub lookup-AllValues : (k : K) (m : Assoc K V) {v : V} → AllValues m → lookup k m ≡ some v → P v
  unfolding lookup
  lookup-AllValues k [] a h = cc
  lookup-AllValues k ((j, w) ∷ m) {v} a h = elim (Bool-cases (j == k)) [
    | inl q ↦ subst P (found q) a.0
    | inr q ↦ lookup-AllValues k m a.1 (rw q at h)
  ]
    where
      found : (j == k) ≡ true → w ≡ v
      found q = cc (rw q at h)

pub AllValues-weaken {ℓ κ μ} :
    {K : Type ℓ} {V : Type κ} ⦃eq : Eq K⦄ (P Q : V → Type μ) (m : Assoc K V)
    → ((v : V) → P v → Q v)
    → AllValues P m
    → AllValues Q m
AllValues-weaken P Q [] f a = tt
AllValues-weaken P Q ((k, v) ∷ m) f a = (f v a.0, AllValues-weaken P Q m f a.1)
