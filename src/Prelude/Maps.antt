-- ===== src/Prelude/Maps.antt =====
-- A Go map as an association list that holds a key once. The list's order is one of the orders in
-- which a `range` over the map may go.
use mathlib.Core.Path.{◌≡◌, refl}
use mathlib.Core.Option.{Option, none, some}
use mathlib.Core.List.{List, [], ◌∷◌}
use native.Mathlib.Omega.{arith}
use tickstore.Prelude.Tests.{◌==◌, if◌then◌else◌, Eq}

abbrev pub Assoc {ℓ κ} : Type ℓ → Type κ → Type (ℓ ⊔ κ)
Assoc K V = List (K × V)

module _ {ℓ κ} {K : Type ℓ} {V : Type κ} ⦃e : Eq K⦄ where
  -- `v, ok := m[k]`
  unfoldable pub lookup : K → Assoc K V → Option V
  lookup k [] = none
  lookup k ((j, v) ∷ m) = if j == k then some v else lookup k m

  -- `m[k] = v`
  unfoldable pub insert : K → V → Assoc K V → Assoc K V
  insert k v [] = (k, v) ∷ []
  insert k v (entry ∷ rest) = if entry.0 == k then (k, v) ∷ rest else entry ∷ insert k v rest

  -- `delete(m, k)`
  unfoldable pub delete : K → Assoc K V → Assoc K V
  delete k [] = []
  delete k ((j, w) ∷ m) = let rest = delete k m in if j == k then rest else (j, w) ∷ rest

  -- No key stands twice.
  abbrev pub IsMap : Assoc K V → Type κ
  IsMap [] = Unit
  IsMap ((k, v) ∷ m) = (lookup k m ≡ none) × IsMap m

  pub lookup-insert :
      (k other : K) (v : V) (m : Assoc K V)
      → lookup other (insert k v m) ≡ (if k == other then some v else lookup other m)
  unfolding lookup insert
  lookup-insert k other v [] = refl
  lookup-insert k other v ((i, w) ∷ m) = ground (
    arith,
    lookup-insert k other v m,
    e.beq_iff k other,
    e.beq_iff i k,
    e.beq_iff i other,
    e.beq_iff other other,
  )

  pub lookup-delete :
      (k j : K) (m : Assoc K V) → lookup j (delete k m) ≡ (if k == j then none else lookup j m)
  unfolding lookup delete
  lookup-delete k j [] = ground arith
  lookup-delete k j ((i, w) ∷ m) =
      ground (arith, e.beq_iff k j, e.beq_iff i k, e.beq_iff i j, lookup-delete k j m)

  pub insert-IsMap : (k : K) (v : V) (m : Assoc K V) → IsMap m → IsMap (insert k v m)
  unfolding lookup insert
  insert-IsMap k v [] h = (refl, tt)
  insert-IsMap k v ((i, w) ∷ m) h =
      ground (arith, e.beq_iff i k, e.beq_iff k i, lookup-insert k i v m, insert-IsMap k v m h.1)

  pub delete-IsMap : (k : K) (m : Assoc K V) → IsMap m → IsMap (delete k m)
  unfolding lookup delete
  delete-IsMap k [] h = tt
  delete-IsMap k ((i, w) ∷ m) h = ground (arith, lookup-delete k i m, delete-IsMap k m h.1)
