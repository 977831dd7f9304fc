-- ===== src/Venue/Reconnect/Backoff.antt =====
-- Lemmas about the waits and the return of `RunWithReconnect` in internal/venue/reconnect.go.
use native.Mathlib.Nat.{pow-suc, mod-lt, mul_assoc, mul-le-mul_left}
use tickstore.Prelude.{
  Bool, List, [], ap, arith, false, if◌then◌else◌, ltb, min, refl, suc, sym, true, zero, ℕ, ◌%◌,
  ◌*◌, ◌+◌, ◌<◌, ◌^◌, ◌||◌, ◌∙◌, ◌∷◌, ◌≡◌, ◌≤◌,
}
use tickstore.Venue.Reconnect.{Round, double_capped, keep_alive, rand_below}

-- The limit of each wait: `low` behind a session that received data, and twice as much, up to `high`,
-- for each further session without any.
unfoldable pub limits : (low high : ℕ) → ℕ → List Round → List ℕ
limits low high idle [] = []
limits low high idle (r ∷ rs) =
    let rounds = if r.got_data then 0 else idle in
    min high (low * 2 ^ rounds) ∷ limits low high (rounds + 1) rs

-- Each number of the first list is below its counterpart in the second, which may go on.
abbrev pub AllBelow : List ℕ → List ℕ → Type 0
AllBelow [] bs = Unit
AllBelow (x ∷ xs) [] = ⊥
AllBelow (x ∷ xs) (b ∷ bs) = (x < b) × AllBelow xs bs

-- How a round ends: `rest` is what the rounds behind it do.
abbrev end_round : Bool → Bool → ℕ → List ℕ × Bool → List ℕ × Bool
end_round now asleep s rest =
    if now then ([], true) else if asleep then (s ∷ [], true) else (s ∷ rest.0, rest.1)

pub double_limit :
    (low high n : ℕ) → double_capped high (min high (low * 2 ^ n)) ≡ min high (low * 2 ^ (n + 1))
unfolding double_capped
double_limit low high n = next (low * 2 ^ n) (low * 2 ^ (n + 1)) twice
  where
    twice : low * 2 ^ (n + 1) ≡ low * 2 ^ n * 2
    twice =
        ap (λ m. low * 2 ^ m) (omega arith)
        ∙ ap (λ p. low * p) (pow-suc 2 n)
        ∙ sym (mul_assoc low (2 ^ n) 2)

    next :
        (x y : ℕ)
        → y ≡ x * 2
        → (if ltb high (min high x * 2) then high else min high x * 2) ≡ min high y
    next x y e = ground arith

two_pos : (n : ℕ) → 0 < 2 ^ n
two_pos zero = omega arith
two_pos (suc n) = omega (arith, pow-suc 2 n, two_pos n)

pub limit_pos : (low high n : ℕ) → 0 < low → low ≤ high → 0 < min high (low * 2 ^ n)
limit_pos low high n h k = omega (arith, mul-le-mul_left low (two_pos n))

current_limit :
    (low high idle : ℕ) (fresh : Bool)
    → low ≤ high
    → (if fresh then low else min high (low * 2 ^ idle))
      ≡ min high (low * 2 ^ (if fresh then 0 else idle))
current_limit low high idle true h = omega arith
current_limit low high idle false h = refl

-- Every wait is below its limit: 2^k times the shortest backoff, and the longest one at most, where
-- the k sessions before it received no data.
pub keep_alive-AllBelow :
    (low high idle : ℕ) (rs : List Round)
    → 0 < low
    → low ≤ high
    → AllBelow (keep_alive low high (min high (low * 2 ^ idle)) rs).0 (limits low high idle rs)
unfolding keep_alive limits
keep_alive-AllBelow low high idle [] h k = tt
keep_alive-AllBelow low high idle (r ∷ rs) h k =
    let rounds = if r.got_data then 0 else idle in
    let limit = min high (low * 2 ^ rounds) in
    let wait : r.draw % limit < limit = mod-lt r.draw (limit_pos low high rounds h k) in
    rw (current_limit low high idle r.got_data k, double_limit low high rounds)
      (cut r.cancelled r.cancelled_asleep
        (keep_alive low high (min high (low * 2 ^ (rounds + 1))) rs)
        (limits low high (rounds + 1) rs) wait (keep_alive-AllBelow low high (rounds + 1) rs h k))
  where
    cut :
        (now asleep : Bool) (rest : List ℕ × Bool) (bs : List ℕ) {s b : ℕ}
        → s < b
        → AllBelow rest.0 bs
        → AllBelow (end_round now asleep s rest).0 (b ∷ bs)
    cut true asleep rest bs e f = tt
    cut false true rest bs e f = (e, tt)
    cut false false rest bs e f = (e, f)

-- Whether some round sees the cancellation.
unfoldable pub some_cancelled : List Round → Bool
some_cancelled [] = false
some_cancelled (r ∷ rs) = r.cancelled || (r.cancelled_asleep || some_cancelled rs)

-- The loop returns where some round sees the context cancelled, and in no other case.
pub keep_alive-stops :
    (low high backoff : ℕ) (rs : List Round)
    → (keep_alive low high backoff rs).1 ≡ some_cancelled rs
unfolding keep_alive some_cancelled
keep_alive-stops low high backoff [] = refl
keep_alive-stops low high backoff (r ∷ rs) =
    let current = if r.got_data then low else backoff in
    let rest = keep_alive low high (double_capped high current) rs in
    cut r.cancelled r.cancelled_asleep (rand_below current r.draw) rest
      (keep_alive-stops low high (double_capped high current) rs)
  where
    cut :
        (now asleep : Bool) (s : ℕ) (rest : List ℕ × Bool) {b : Bool}
        → rest.1 ≡ b
        → (end_round now asleep s rest).1 ≡ (now || (asleep || b))
    cut true asleep s rest e = refl
    cut false true s rest e = refl
    cut false false s rest e = e
