-- ===== src/Prelude/Sort.antt =====
-- `sort.Slice`: insertion by the caller's `less`, later items behind equal ones.
use mathlib.Core.Path.{◌≡◌, ap, ◌∙◌}
use mathlib.Core.Bool.{Bool, Bool-set, true, false}
use mathlib.Core.List.{List, [], ◌∷◌, Mem, Perm, mem-cons, mem-cons_self, not-mem-nil}
use mathlib.Core.Logic.Or
use mathlib.Core.List.Perm
use mathlib.Core.Logic.{inl, inr}
use tickstore.Prelude.Tests.{if◌then◌else◌, Bool-cases}
use tickstore.Prelude.Lists.{All}

module _ {ℓ} {A : Type ℓ} (less : A → A → Bool) where
  unfoldable pub place : A → List A → List A
  place x [] = x ∷ []
  place x (y ∷ ys) = if less y x then y ∷ place x ys else x ∷ y ∷ ys

  unfoldable pub sort_slice : List A → List A
  unfolding place
  sort_slice [] = []
  sort_slice (x ∷ xs) = place x (sort_slice xs)

  -- No item is less than one before it.
  abbrev pub IsSorted : List A → Type ℓ
  IsSorted [] = Unit
  IsSorted (x ∷ xs) = All (λ y. less y x ≡ false) xs × IsSorted xs

  pub place-perm : (x : A) (ys : List A) → Perm (place x ys) (x ∷ ys)
  unfolding place
  place-perm x [] = Perm.refl _
  place-perm x (y ∷ ys) = elim (Bool-cases (less y x)) [
    | inl p ↦ rw p (Perm.trans (Perm.cons y (place-perm x ys)) (Perm.swap x y ys))
    | inr p ↦ rw p (Perm.refl _)
  ]

  pub sort_slice-perm : (xs : List A) → Perm (sort_slice xs) xs
  unfolding sort_slice
  sort_slice-perm [] = Perm.refl _
  sort_slice-perm (x ∷ xs) =
      Perm.trans (place-perm x (sort_slice xs)) (Perm.cons x (sort_slice-perm xs))

  module _ {κ} (P : A → Type κ) where
    pub place-All : (x : A) (ys : List A) → P x → All P ys → All P (place x ys)
    unfolding place
    place-All x [] hx h = (hx, tt)
    place-All x (y ∷ ys) hx h = elim (Bool-cases (less y x)) [
      | inl p ↦ rw p (h.0, place-All x ys hx h.1)
      | inr p ↦ rw p (hx, h)
    ]

    pub sort_slice-All : (xs : List A) → All P xs → All P (sort_slice xs)
    unfolding sort_slice
    sort_slice-All [] h = tt
    sort_slice-All (x ∷ xs) h = place-All x (sort_slice xs) h.0 (sort_slice-All xs h.1)

  -- `less` is asymmetric, and its failure is transitive.
  module _ (asym : (x y : A) → less x y ≡ true → less y x ≡ false)
      (trans : (x y z : A) → less y x ≡ false → less z y ≡ false → less z x ≡ false) where
    All-trans :
        (x y : A) (ys : List A)
        → less y x ≡ false
        → All (λ z. less z y ≡ false) ys
        → All (λ z. less z x ≡ false) ys
    All-trans x y [] p h = tt
    All-trans x y (z ∷ zs) p h = (trans x y z p h.0, All-trans x y zs p h.1)

    pub place-IsSorted : (x : A) (ys : List A) → IsSorted ys → IsSorted (place x ys)
    unfolding place
    place-IsSorted x [] h = (tt, tt)
    place-IsSorted x (y ∷ ys) h = elim (Bool-cases (less y x)) [
      | inl p ↦
          rw p (place-All (λ z. less z y ≡ false) x ys (asym y x p) h.0, place-IsSorted x ys h.1)
      | inr p ↦ rw p ((p, All-trans x y ys p h.0), h)
    ]

    pub sort_slice-IsSorted : (xs : List A) → IsSorted (sort_slice xs)
    unfolding sort_slice
    sort_slice-IsSorted [] = tt
    sort_slice-IsSorted (x ∷ xs) = place-IsSorted x (sort_slice xs) (sort_slice-IsSorted xs)

  -- No item is less than itself, and two items of which neither is less are one.
  module _ (irrefl : (x : A) → less x x ≡ false)
      (total : (x y : A) → less x y ≡ false → less y x ≡ false → x ≡ y) (set : IsSet A) where
    mem_not_less :
        (x y : A) (ys : List A) → All (λ z. less z y ≡ false) ys → Mem x (y ∷ ys) → less x y ≡ false
    mem_not_less x y ys h m =
        Or.elim (Bool-set (less x y) false) (mem-cons.0 m) (λ e. ap (λ z. less z y) e ∙ irrefl y)
          (behind ys h)
      where
        behind : (zs : List A) → All (λ z. less z y ≡ false) zs → Mem x zs → less x y ≡ false
        behind [] h m = absurd (not-mem-nil m)
        behind (z ∷ zs) h m =
            Or.elim (Bool-set (less x y) false) (mem-cons.0 m) (λ e. ap (λ w. less w y) e ∙ h.0)
              (behind zs h.1)

    -- There is one sorted arrangement of a list.
    pub sorted_unique : (xs ys : List A) → IsSorted xs → IsSorted ys → Perm xs ys → xs ≡ ys
    sorted_unique [] ys hx hy p = Perm.nil-eq p
    sorted_unique (x ∷ xs) [] hx hy p = Perm.eq-nil p
    sorted_unique (x ∷ xs) (y ∷ ys) hx hy p =
        let e : x ≡ y =
          total x y (mem_not_less x y ys hy.0 ((Perm.mem_iff p).0 mem-cons_self))
            (mem_not_less y x xs hx.0 ((Perm.mem_iff p).1 mem-cons_self)) in
        let q : Perm (y ∷ xs) (y ∷ ys) = rw e at p in
        let tails : xs ≡ ys = sorted_unique xs ys hx.1 hy.1 (Perm.cons_inv q) in cc
