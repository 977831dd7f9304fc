-- ===== src/Live/Cursor.antt =====
-- Lemmas about the trades behind a reader's cursor, in internal/live/registry.go.
use native.Mathlib.Nat.{add-zero, suc-add}
use tickstore.Prelude.{
  Bool-cases, Bytes, List, [], ap, arith, drop, false, inl, inr, leb, leb→le, length, length-append,
  length-drop, length-take, max_i64, min, pos, refl, suc, sym, take, zero, ℕ, ◌++◌, ◌+◌, ◌-◌, ◌<◌,
  ◌∙◌, ◌∷◌, ◌≡◌, ◌≤◌,
}
use tickstore.Norm.{Time, Trade}
use tickstore.Live.{RecentTrade, Registry, keep_last, on_trade, trades_since}
use tickstore.Live.Recent.{
  drop_nil, drop_again, drop_end, entries, keep_last-drop, last_id, length-entries, newer, page,
  record_all, record_all_lem, rows, trades_since-page,
}

-- The registry holds the last of these trades, numbered from 1.
abbrev pub HasRecorded : Registry → List Trade → Type 0
HasRecorded r ts = (r.next_trade_id ≡ pos (length ts)) × (r.recent ≡ keep_last 500 (entries 0 ts))

drop-entries : (k n : ℕ) (ts : List Trade) → drop k (entries n ts) ≡ entries (n + k) (drop k ts)
unfolding entries
drop-entries zero n ts = ap (λ m. entries m ts) (omega arith)
drop-entries (suc k) n [] = refl
drop-entries (suc k) n (t ∷ ts) =
    drop-entries k (n + 1) ts ∙ ap (λ m. entries m (drop k ts)) (omega arith)

take-entries : (k n : ℕ) (ts : List Trade) → take k (entries n ts) ≡ entries n (take k ts)
unfolding entries
take-entries zero n ts = refl
take-entries (suc k) n [] = refl
take-entries (suc k) n (t ∷ ts) = rw (take-entries k (n + 1) ts) refl

pub entries-append :
    (n : ℕ) (xs ys : List Trade) → entries n (xs ++ ys) ≡ entries n xs ++ entries (n + length xs) ys
unfolding entries
entries-append n [] ys = ap (λ m. entries m ys) (omega arith)
entries-append n (x ∷ xs) ys =
    let e : n + 1 + length xs ≡ n + suc (length xs) = omega arith in
    rw (entries-append (n + 1) xs ys, e) refl

newer_all : (c n : ℕ) (ts : List Trade) → c ≤ n → newer (pos c) (entries n ts) ≡ entries n ts
unfolding entries newer
newer_all c n [] h = refl
newer_all c n (t ∷ ts) h =
    let above : leb (n + 1 + 0) (c + 0) ≡ false = ground arith in
    rw (above, newer_all c (n + 1) ts (omega arith)) refl

-- Behind a cursor stand the trades with larger numbers.
newer-entries :
    (c n : ℕ) (ts : List Trade)
    → newer (pos c) (entries n ts) ≡ entries (n + (c - n)) (drop (c - n) ts)
unfolding entries newer
newer-entries c n [] = sym (rw (drop_nil {A = Trade} (c - n)) refl)
newer-entries c n (t ∷ ts) = elim (Bool-cases (leb (n + 1 + 0) (c + 0))) [
  | inl old ↦
      let le : n + 1 ≤ c = omega (arith, leb→le (n + 1 + 0) (c + 0) old) in
      let e : c - n ≡ suc (c - (n + 1)) = omega arith in
      let f : n + 1 + (c - (n + 1)) ≡ n + suc (c - (n + 1)) = omega arith in
      rw (old, e) (rw f at (newer-entries c (n + 1) ts))
  | inr new ↦
      let le : c ≤ n = none_left c n new in
      let e : c - n ≡ 0 = omega arith in rw (e, add-zero n) (newer_all c n (t ∷ ts) le)
]
  where
    none_left : (c n : ℕ) → leb (n + 1 + 0) (c + 0) ≡ false → c ≤ n
    none_left c n h = ground arith

last_id-entries : (n : ℕ) (ts : List Trade) → last_id (pos n) (entries n ts) ≡ pos (n + length ts)
unfolding entries last_id
last_id-entries n [] = ap pos (omega arith)
last_id-entries n (t ∷ ts) = last_id-entries (n + 1) ts ∙ ap pos (omega arith)

pub rows-append :
    (clock : Time → Bytes) (xs ys : List RecentTrade)
    → rows clock (xs ++ ys) ≡ rows clock xs ++ rows clock ys
unfolding rows
rows-append clock [] ys = refl
rows-append clock (x ∷ xs) ys = rw (rows-append clock xs ys) refl

pub take_prefix : (k : ℕ) (xs ys : List Trade) → take (length (take k xs)) (xs ++ ys) ≡ take k xs
take_prefix zero xs ys = refl
take_prefix (suc k) [] ys = refl
take_prefix (suc k) (x ∷ xs) ys = ap (◌∷◌ x) (take_prefix k xs ys)

take_nil : {A : Type 0} (n : ℕ) → take {A = A} n [] ≡ []
take_nil zero = refl
take_nil (suc n) = refl

pub take_add : (a b : ℕ) (xs : List Trade) → take (a + b) xs ≡ take a xs ++ take b (drop a xs)
take_add zero b xs = ap (λ n. take n xs) (omega arith)
take_add (suc a) b [] = rw (suc-add a b) (sym (take_nil {A = Trade} b))
take_add (suc a) b (x ∷ xs) = rw (suc-add a b) (ap (◌∷◌ x) (take_add a b xs))

-- What a cursor finds that is at most 500 trades behind.
newer-kept :
    (c : ℕ) (ts : List Trade)
    → length ts ≤ c + 500
    → newer (pos c) (keep_last 500 (entries 0 ts)) ≡ entries c (drop c ts)
newer-kept c ts h =
    let m = length ts - 500 in
    ap (newer (pos c)) (
      keep_last-drop 500 (entries 0 ts)
      ∙ ap (λ n. drop (n - 500) (entries 0 ts)) (length-entries 0 ts)
      ∙ drop-entries m 0 ts)
    ∙ newer-entries c (0 + m) (drop m ts)
    ∙ ap (λ n. entries n (drop (c - (0 + m)) (drop m ts))) (omega arith)
    ∙ ap (entries c) (drop_again (c - (0 + m)) m ts ∙ ap (λ n. drop n ts) (omega arith))

-- The trades that a turn finds for the cursor `c`.
abbrev pub found_by : ℕ → List Trade → List Trade
found_by c ts = take 100 (drop c ts)

pub trades_since-found :
    (clock : Time → Bytes) (reg : Registry) (c : ℕ) (ts : List Trade)
    → HasRecorded reg ts
    → length ts ≤ c + 500
    → trades_since clock reg (pos c) 100
      ≡ (rows clock (entries c (found_by c ts)), pos (c + length (found_by c ts)))
trades_since-found clock reg c ts h k =
    let e : page (pos c) 100 reg.recent ≡ entries c (found_by c ts) =
      ap (λ r. take 100 (newer (pos c) r)) h.1
      ∙ ap (take 100) (newer-kept c ts k)
      ∙ take-entries 100 c (drop c ts) in
    trades_since-page clock reg (pos c) 100
    ∙ ap (λ p. (rows clock p, last_id (pos c) p)) e
    ∙ ap (λ n. (rows clock (entries c (found_by c ts)), n)) (last_id-entries c (found_by c ts))

pub on_trade-HasRecorded :
    (reg : Registry) (ts : List Trade) (t : Trade)
    → HasRecorded reg ts
    → length ts < max_i64
    → HasRecorded (on_trade reg t) (ts ++ t ∷ [])
unfolding record_all
on_trade-HasRecorded reg ts t h k =
    let (id, kept) = record_all_lem reg (length ts) (entries 0 ts) (t ∷ []) h.0 h.1 (omega arith) in
    (
      id ∙ ap pos (sym (length-append ts (t ∷ []))),
      kept
          ∙ ap (keep_last 500) (
              ap (λ n. entries 0 ts ++ entries n (t ∷ [])) (omega arith)
              ∙ sym (entries-append 0 ts (t ∷ []))),
    )

-- What a cursor finds in `ts` is the first part of what it finds later in `ts ++ us`.
pub found_by-joined :
    (c e : ℕ) (ts us : List Trade)
    → let found = found_by c ts in
      let d = c + length found in
      c ≤ length ts
      → d ≤ e
      → entries c found ++ entries d (take (e - d) (drop d (ts ++ us)))
        ≡ entries c (take (e - c) (drop c (ts ++ us)))
found_by-joined c e ts us lo more =
    let found = found_by c ts in
    let m = length found in
    let all = ts ++ us in
    let tail = take (e - (c + m)) (drop (c + m) all) in
    let before : take m (drop c all) ≡ found =
      ap (take m) (sym (drop_end c ts us lo)) ∙ take_prefix 100 (drop c ts) us in
    let joined : take (e - c) (drop c all) ≡ found ++ tail =
      ap (λ n. take n (drop c all)) (omega arith)
      ∙ take_add m (e - (c + m)) (drop c all)
      ∙ ap (λ l. take m (drop c all) ++ take (e - (c + m)) l)
          (drop_again m c all ∙ ap (λ n. drop n all) (omega arith))
      ∙ ap (λ l. l ++ tail) before in
    sym (entries-append c found tail) ∙ ap (entries c) (sym joined)

pub length-found_by : (c : ℕ) (ts : List Trade) → length (found_by c ts) ≡ min 100 (length ts - c)
length-found_by c ts = length-take 100 (drop c ts) ∙ ap (min 100) (length-drop c ts)
