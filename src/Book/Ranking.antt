-- ===== src/Book/Ranking.antt =====
-- Lemmas about lists of levels in strict order of price, as `Depth` of internal/book/views.go
-- returns them.
use tickstore.Prelude.{
  All, All-take, Bool, Bool-cases, List, Option, [], arith, bytes_eq, false, if◌then◌else◌, inl,
  inr, int_beq_iff, int_eq, nat_eq, none, refl, some, subst, suc, sym, take, true, zero, ℕ, ℤ, ◌++◌,
  ◌==◌, ◌∙◌, ◌∷◌, ◌≡◌, ◌≢◌,
}
use tickstore.Norm.{Level}
use tickstore.Book.{price_less}
use tickstore.Book.Order.{price_less_asym, price_less_irrefl, price_less_total}

-- The size at a price, in a list of levels.
abbrev pub find_level : ℤ → List Level → Option ℤ
find_level p [] = none
find_level p (l ∷ ls) = if l.price == p then some l.size else find_level p ls

-- Every level stands before those of worse prices.
abbrev pub IsRanked : Bool → List Level → Type 0
IsRanked d [] = Unit
IsRanked d (l ∷ ls) = All (λ k. price_less d l.price k.price ≡ true) ls × IsRanked d ls

-- A price that is not behind `p`'s level is not found behind it.
pub find_level_behind :
    (d : Bool) (p : ℤ) (ls : List Level)
    → All (λ k. price_less d p k.price ≡ true) ls
    → find_level p ls ≡ none
find_level_behind d p [] h = refl
find_level_behind d p (l ∷ ls) h =
    ground (arith, int_beq_iff l.price p, price_less_irrefl d p, find_level_behind d p ls h.1)

find_level_self : (l : Level) (ls : List Level) → find_level l.price (l ∷ ls) ≡ some l.size
find_level_self l ls = ground (arith, int_beq_iff l.price l.price)

-- A found price is the head's or a worse one.
found_behind :
    (d : Bool) (p : ℤ) (l : Level) (ls : List Level)
    → All (λ k. price_less d l.price k.price ≡ true) ls
    → find_level p ls ≢ none
    → price_less d l.price p ≡ true
found_behind d p l [] h f = absurd (f refl)
found_behind d p l (k ∷ ks) h f = elim (Bool-cases (k.price == p)) [
  | inl e ↦ cc (h.0, (int_beq_iff k.price p).0 e)
  | inr e ↦ found_behind d p l ks h.1 (λ z. f (rw e z))
]

pub found_at_or_behind :
    (d : Bool) (p : ℤ) (l : Level) (ls : List Level)
    → IsRanked d (l ∷ ls)
    → find_level p (l ∷ ls) ≢ none
    → price_less d p l.price ≡ false
found_at_or_behind d p l ls h f = elim (Bool-cases (l.price == p)) [
  | inl e ↦ cc ((int_beq_iff l.price p).0 e, price_less_irrefl d p)
  | inr e ↦ price_less_asym d l.price p (found_behind d p l ls h.0 (λ z. f (rw e z)))
]

heads_agree :
    (d : Bool) (k l : Level) (ks ls : List Level)
    → IsRanked d (k ∷ ks)
    → IsRanked d (l ∷ ls)
    → ((p : ℤ) → find_level p (k ∷ ks) ≡ find_level p (l ∷ ls))
    → k ≡ l
heads_agree d k l ks ls hk hl same =
    let p : k.price ≡ l.price =
      price_less_total d k.price l.price
        (found_at_or_behind d k.price l ls hl (λ z. cc (z, same k.price, find_level_self k ks)))
        (found_at_or_behind d l.price k ks hk (λ z. cc (z, same l.price, find_level_self l ls))) in
    let s : find_level k.price (l ∷ ls) ≡ some l.size =
      subst (λ q. find_level q (l ∷ ls) ≡ some l.size) (sym p) (find_level_self l ls) in
    let z : some k.size ≡ some l.size = sym (find_level_self k ks) ∙ same k.price ∙ s in cc (p, z)

tails_agree :
    (d : Bool) (l : Level) (ks ls : List Level)
    → IsRanked d (l ∷ ks)
    → IsRanked d (l ∷ ls)
    → (p : ℤ) → find_level p (l ∷ ks) ≡ find_level p (l ∷ ls)
    → find_level p ks ≡ find_level p ls
tails_agree d l ks ls hk hl p same = elim (Bool-cases (l.price == p)) [
  | inl e ↦
      let q : l.price ≡ p = (int_beq_iff l.price p).0 e in
      rw (← q) (find_level_behind d l.price ks hk.0 ∙ sym (find_level_behind d l.price ls hl.0))
  | inr e ↦ rw e at same
]

-- Two ranked lists that give every price the same size are one list.
pub ranked_unique :
    (d : Bool) (ks ls : List Level)
    → IsRanked d ks
    → IsRanked d ls
    → ((p : ℤ) → find_level p ks ≡ find_level p ls)
    → ks ≡ ls
ranked_unique d [] [] hk hl same = refl
ranked_unique d [] (l ∷ ls) hk hl same = absurd (cc (same l.price, find_level_self l ls))
ranked_unique d (k ∷ ks) [] hk hl same = absurd (cc (same k.price, find_level_self k ks))
ranked_unique d (k ∷ ks) (l ∷ ls) hk hl same =
    let e : k ≡ l = heads_agree d k l ks ls hk hl same in
    let hk' : IsRanked d (l ∷ ks) = rw e at hk in
    let same' : (p : ℤ) → find_level p (l ∷ ks) ≡ find_level p (l ∷ ls) = rw e at same in
    let tails : ks ≡ ls =
      ranked_unique d ks ls hk.1 hl.1 (λ p. tails_agree d l ks ls hk' hl p (same' p)) in
    cc

pub find_level-append :
    (p : ℤ) (ks ls : List Level)
    → find_level p (ks ++ ls) ≡ elim (find_level p ks) [ some s ↦ some s | none ↦ find_level p ls ]
find_level-append p [] ls = refl
find_level-append p (k ∷ ks) ls = elim (Bool-cases (k.price == p)) [
  | inl e ↦ rw e
  | inr e ↦ rw e (find_level-append p ks ls)
]

pub IsRanked-take : (d : Bool) (n : ℕ) (ls : List Level) → IsRanked d ls → IsRanked d (take n ls)
IsRanked-take d zero ls h = tt
IsRanked-take d (suc n) [] h = tt
IsRanked-take d (suc n) (l ∷ ls) h =
    (All-take (λ k. price_less d l.price k.price ≡ true) n ls h.0, IsRanked-take d n ls h.1)
