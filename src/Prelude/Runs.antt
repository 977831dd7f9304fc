-- ===== src/Prelude/Runs.antt =====
-- Lemmas about items under consecutive numbers.
use Prim.Native.Nat.{◌<◌, ℕ, ◌+◌, ◌≤◌}
use mathlib.Core.Path.{◌≡◌, refl, ap}
use mathlib.Core.Logic.{if_pos, if_neg}
use mathlib.Core.Logic.Or
use mathlib.Core.Bool.{Bool, false}
use mathlib.Core.List.{
  List, [], ◌∷◌, ◌++◌, Perm, Mem, mem-cons, mem-cons_self, not-mem-nil, filter, filter-append,
}
use mathlib.Core.List.Perm
use native.Mathlib.Omega.{arith}
use native.Mathlib.Bridge.{le_prop}
use native.Mathlib.Decide.{dec_lt}
use tickstore.Prelude.Tests.{ltb}
use tickstore.Prelude.Lists.{All}
use tickstore.Prelude.Sort.{IsSorted}

module _ {ℓ} {A : Type ℓ} (key : A → ℕ) where
  abbrev pub key_less : A → A → Bool
  key_less a b = ltb (key a) (key b)

  -- The keys are n, n + 1, n + 2, …
  abbrev pub IsRun : ℕ → List A → Type 0
  IsRun n [] = Unit
  IsRun n (x ∷ xs) = (key x ≡ n) × IsRun (n + 1) xs

  -- The items above `n`.
  abbrev pub above : ℕ → List A → List A
  above n = filter (λ x. dec_lt n (key x))

  mem-le : (n : ℕ) (xs : List A) (x : A) → All (λ y. n ≤ key y) xs → Mem x xs → n ≤ key x
  mem-le n [] x h m = absurd (not-mem-nil m)
  mem-le n (y ∷ ys) x h m =
      Or.elim le_prop (mem-cons.0 m) (λ e. omega (arith, ap key e, h.0)) (mem-le n ys x h.1)

  All-le_mono : (m n : ℕ) (xs : List A) → m ≤ n → All (λ y. n ≤ key y) xs → All (λ y. m ≤ key y) xs
  All-le_mono m n [] h a = tt
  All-le_mono m n (x ∷ xs) h a = (omega (arith, a.0), All-le_mono m n xs h a.1)

  pub IsRun-All : (n : ℕ) (xs : List A) → IsRun n xs → All (λ y. n ≤ key y) xs
  IsRun-All n [] h = tt
  IsRun-All n (x ∷ xs) h =
      (omega (arith, h.0), All-le_mono n (n + 1) xs (omega arith) (IsRun-All (n + 1) xs h.1))

  sorted_head :
      (x : A) (xs : List A) → All (λ y. key_less y x ≡ false) xs → All (λ y. key x ≤ key y) xs
  sorted_head x [] h = tt
  sorted_head x (y ∷ ys) h = (ground (arith, h.0), sorted_head x ys h.1)

  module _ (set : IsSet A) where
    heads_eq :
        (n : ℕ) (x y : A) (xs ys : List A)
        → IsSorted key_less (x ∷ xs)
        → IsRun n (y ∷ ys)
        → Perm (x ∷ xs) (y ∷ ys)
        → x ≡ y
    heads_eq n x y xs ys sorted run p =
        let low : key x ≤ key y =
          Or.elim le_prop (mem-cons.0 ((Perm.mem_iff p).1 mem-cons_self))
            (λ e. omega (arith, ap key e)) (mem-le (key x) xs y (sorted_head x xs sorted.0)) in
        Or.elim (set x y) (mem-cons.0 ((Perm.mem_iff p).0 mem-cons_self)) (λ e. e)
          λ m.
            let high : n + 1 ≤ key x = mem-le (n + 1) ys x (IsRun-All (n + 1) ys run.1) m in
            absurd (omega (arith, low, high, run.0))

    -- The only sorted arrangement of a run is the run.
    pub sorted_run :
        (n : ℕ) (xs ys : List A) → IsSorted key_less xs → IsRun n ys → Perm xs ys → xs ≡ ys
    sorted_run n [] ys sorted run p = Perm.nil-eq p
    sorted_run n (x ∷ xs) [] sorted run p = Perm.eq-nil p
    sorted_run n (x ∷ xs) (y ∷ ys) sorted run p =
        let e : x ≡ y = heads_eq n x y xs ys sorted run p in
        let q : Perm (y ∷ xs) (y ∷ ys) = rw e at p in
        let tails : xs ≡ ys = sorted_run (n + 1) xs ys sorted.1 run.1 (Perm.cons_inv q) in cc

  above-whole : (n : ℕ) (xs : List A) → All (λ y. n + 1 ≤ key y) xs → above n xs ≡ xs
  above-whole n [] h = refl
  above-whole n (x ∷ xs) h =
      let q : n < key x = omega (arith, h.0) in rw (if_pos _ q) (ap (◌∷◌ x) (above-whole n xs h.1))

  above_none : (n : ℕ) (xs : List A) → All (λ y. key y ≤ n) xs → above n xs ≡ []
  above_none n [] h = refl
  above_none n (x ∷ xs) h =
      let q : ¬ (n < key x) = omega (arith, h.0) in rw (if_neg _ q) (above_none n xs h.1)

  above-All : (P : A → Type 0) (n : ℕ) (xs : List A) → All P xs → All P (above n xs)
  above-All P n [] h = tt
  above-All P n (x ∷ xs) h = elim (dec_lt n (key x)) [
    | yes q ↦ rw (if_pos _ q) (h.0, above-All P n xs h.1)
    | no q ↦ rw (if_neg _ q) (above-All P n xs h.1)
  ]

  above-IsSorted : (n : ℕ) (xs : List A) → IsSorted key_less xs → IsSorted key_less (above n xs)
  above-IsSorted n [] h = tt
  above-IsSorted n (x ∷ xs) h = elim (dec_lt n (key x)) [
    | yes q ↦
        rw (if_pos _ q) (above-All (λ y. key_less y x ≡ false) n xs h.0, above-IsSorted n xs h.1)
    | no q ↦ rw (if_neg _ q) (above-IsSorted n xs h.1)
  ]

  -- What is above the head of a sorted list is the whole list, where the head is.
  pub above_sorted :
      (n : ℕ) (x : A) (xs : List A)
      → IsSorted key_less (x ∷ xs)
      → n < key x
      → above n (x ∷ xs) ≡ x ∷ xs
  above_sorted n x xs h q =
      above-whole n (x ∷ xs)
        (omega (arith, q), All-le_mono (n + 1) (key x) xs (omega (arith, q)) (sorted_head x xs h.0))

  -- Sorting items at or below `n` and a run from `n + 1`, in any arrangement, brings out the run.
  pub above_of_perm :
      (set : IsSet A) (n : ℕ) (sorted stale run : List A)
      → IsSorted key_less sorted
      → All (λ y. key y ≤ n) stale
      → IsRun (n + 1) run
      → Perm sorted (stale ++ run)
      → above n sorted ≡ run
  above_of_perm set n sorted stale run s old r p =
      let e : above n (stale ++ run) ≡ run =
        rw (filter-append (λ x. dec_lt n (key x)) stale run, above_none n stale old)
          (above-whole n run (IsRun-All (n + 1) run r)) in
      let q : Perm (above n sorted) run = rw e at (Perm.filter (λ x. dec_lt n (key x)) p) in
      sorted_run set (n + 1) (above n sorted) run (above-IsSorted n sorted s) r q
