-- ===== src/Live/Recent.antt =====
-- The recent trades of internal/live/registry.go, and the answer to a reader with a cursor.
use tickstore.Prelude.{
  Bool-cases, Bytes, List, [], ap, append-nil, append_assoc, arith, drop, false, if◌then◌else◌, inl,
  inr, leb, leb_ℤ, leb→le, length, length-append, length-drop, ltb, max_i64, pos, refl, suc, sym,
  take, wrap64, zero, ℕ, ℤ, ◌++◌, ◌+ℤ◌, ◌+◌, ◌-◌, ◌<◌, ◌∙◌, ◌∷◌, ◌≡◌, ◌≤◌,
}
use Prim.Native.Nat.{max}
use tickstore.Prelude.{min}
use native.Mathlib.Nat.{add-zero, add-suc}
use tickstore.Norm.{Time, Trade}
use tickstore.Live.{
  RecentTrade, Registry, TradeRow, collect, keep_last, latest_trade_id, max_recent_trades,
  new_registry, on_trade, trade_row, trades_since,
}

-- The trades in order, as they are recorded behind `n` others.
unfoldable pub entries : ℕ → List Trade → List RecentTrade
entries n [] = []
entries n (t ∷ ts) =
    record {
      id = pos (n + 1);
      venue = t.venue;
      symbol = t.symbol;
      side = t.side;
      price = t.price;
      size = t.size;
      ts = t.ts_received;
    }
    ∷ entries (n + 1) ts

pub length-entries : (n : ℕ) (ts : List Trade) → length (entries n ts) ≡ length ts
unfolding entries
length-entries n [] = refl
length-entries n (t ∷ ts) = ap suc (length-entries (n + 1) ts)

unfoldable pub record_all : Registry → List Trade → Registry
record_all r [] = r
record_all r (t ∷ ts) = record_all (on_trade r t) ts

take-drop : {A : Type 0} (n : ℕ) (xs : List A) → take n xs ++ drop n xs ≡ xs
take-drop zero xs = refl
take-drop (suc n) [] = refl
take-drop (suc n) (x ∷ xs) = ap (◌∷◌ x) (take-drop n xs)

pub drop_nil : {A : Type 0} (n : ℕ) → drop {A = A} n [] ≡ []
drop_nil zero = refl
drop_nil (suc n) = refl

pub drop_again : {A : Type 0} (n k : ℕ) (xs : List A) → drop n (drop k xs) ≡ drop (n + k) xs
drop_again n zero xs = rw (add-zero n) refl
drop_again n (suc k) [] = drop_nil n ∙ sym (drop_nil (n + suc k))
drop_again n (suc k) (x ∷ xs) = rw (add-suc n k) (drop_again n k xs)

pub drop_end :
    {A : Type 0} (k : ℕ) (xs ys : List A) → k ≤ length xs → drop k xs ++ ys ≡ drop k (xs ++ ys)
drop_end zero xs ys h = refl
drop_end (suc k) [] ys h = absurd (omega arith)
drop_end (suc k) (x ∷ xs) ys h = drop_end k xs ys (omega arith)

pub keep_last-drop : {A : Type 0} (n : ℕ) (xs : List A) → keep_last n xs ≡ drop (length xs - n) xs
unfolding keep_last
keep_last-drop n xs = elim (Bool-cases (ltb n (length xs))) [
  | inl e ↦ rw e refl
  | inr e ↦ rw e (ap (λ k. drop k xs) (none_over (length xs) e))
]
  where
    none_over : (m : ℕ) → ltb n m ≡ false → 0 ≡ m - n
    none_over m e = ground arith

-- To keep the last `n` at each step is to keep them at the end.
keep_last-append :
    {A : Type 0} (n : ℕ) (xs ys : List A)
    → keep_last n (keep_last n xs ++ ys) ≡ keep_last n (xs ++ ys)
keep_last-append n xs ys =
    let a = length xs - n in
    let e : keep_last n xs ++ ys ≡ drop a (xs ++ ys) =
      ap (λ t. t ++ ys) (keep_last-drop n xs) ∙ drop_end a xs ys (omega arith) in
    ap (keep_last n) e
    ∙ keep_last-drop n (drop a (xs ++ ys))
    ∙ drop_again (length (drop a (xs ++ ys)) - n) a (xs ++ ys)
    ∙ ap (λ k. drop k (xs ++ ys)) (omega (arith, length-drop a (xs ++ ys), length-append xs ys))
    ∙ sym (keep_last-drop n (xs ++ ys))

entries-cons :
    (n : ℕ) (xs : List RecentTrade) (t : Trade) (ts : List Trade)
    → xs ++ entries n (t ∷ ts) ≡ (xs ++ entries n (t ∷ [])) ++ entries (n + 1) ts
unfolding entries
entries-cons n xs t ts = sym (append_assoc xs (entries n (t ∷ [])) (entries (n + 1) ts))

next_id : (n : ℕ) → n < max_i64 → wrap64 (pos n +ℤ pos 1) ≡ pos (n + 1)
unfolding wrap64 ◌+ℤ◌
next_id n h = ground arith

on_trade-recent :
    (r : Registry) (n : ℕ) (t : Trade)
    → r.next_trade_id ≡ pos n
    → n < max_i64
    → ((on_trade r t).next_trade_id ≡ pos (n + 1))
      × ((on_trade r t).recent ≡ keep_last 500 (r.recent ++ entries n (t ∷ [])))
unfolding on_trade entries
on_trade-recent r n t e h =
    let i : wrap64 (r.next_trade_id +ℤ pos 1) ≡ pos (n + 1) = rw e (next_id n h) in (i, rw i refl)

pub record_all_lem :
    (r : Registry) (n : ℕ) (before : List RecentTrade) (ts : List Trade)
    → r.next_trade_id ≡ pos n
    → r.recent ≡ keep_last 500 before
    → n + length ts ≤ max_i64
    → ((record_all r ts).next_trade_id ≡ pos (n + length ts))
      × ((record_all r ts).recent ≡ keep_last 500 (before ++ entries n ts))
unfolding record_all
record_all_lem r n before [] e f h = (rw (add-zero n) e, unfold entries in rw (append-nil before) f)
record_all_lem r n before (t ∷ ts) e f h =
    let (id, kept) = on_trade-recent r n t e (omega arith) in
    let now : (on_trade r t).recent ≡ keep_last 500 (before ++ entries n (t ∷ [])) =
      kept
      ∙ ap (λ b. keep_last 500 (b ++ entries n (t ∷ []))) f
      ∙ keep_last-append 500 before (entries n (t ∷ [])) in
    let (count, rest) =
      record_all_lem (on_trade r t) (n + 1) (before ++ entries n (t ∷ [])) ts id now
        (omega arith) in
    (count ∙ ap pos (omega arith), rest ∙ ap (keep_last 500) (sym (entries-cons n before t ts)))

pub record_all-kept :
    (ts : List Trade)
    → length ts ≤ max_i64
    → ((record_all new_registry ts).recent ≡ keep_last max_recent_trades (entries 0 ts))
      × (latest_trade_id (record_all new_registry ts) ≡ pos (length ts))
unfolding new_registry latest_trade_id
record_all-kept ts h =
    let (count, kept) =
      record_all_lem new_registry 0 [] ts refl (unfold keep_last in refl) (omega (arith, h)) in
    (kept, count ∙ ap pos (omega arith))

-- The recent trades of a registry that recorded fewer than 2^63 trades since its creation are the last
-- 500 of them, or all where there are fewer, in the order of their recording and numbered from 1; and
-- the number of the last one is the latest.
pub record_all-recent :
    (ts : List Trade)
    → length ts ≤ max_i64
    → ((older : List RecentTrade) × (older ++ (record_all new_registry ts).recent ≡ entries 0 ts)
        × (length (record_all new_registry ts).recent ≡ min 500 (length ts)))
      × (latest_trade_id (record_all new_registry ts) ≡ pos (length ts))
record_all-recent ts h =
    let (kept, latest) = record_all-kept ts h in
    let over = length (entries 0 ts) - 500 in
    let tail : (record_all new_registry ts).recent ≡ drop over (entries 0 ts) =
      kept ∙ keep_last-drop 500 (entries 0 ts) in
    (
      (
        take over (entries 0 ts),
        ap (λ xs. take over (entries 0 ts) ++ xs) tail ∙ take-drop over (entries 0 ts),
        ap length tail ∙ omega (arith, length-drop over (entries 0 ts), length-entries 0 ts),
      ),
      latest,
    )

-- The recent trades behind a cursor.
unfoldable pub newer : ℤ → List RecentTrade → List RecentTrade
newer cursor [] = []
newer cursor (t ∷ ts) = let rest = newer cursor ts in if leb_ℤ t.id cursor then rest else t ∷ rest

unfoldable pub rows : (Time → Bytes) → List RecentTrade → List TradeRow
rows clock [] = []
rows clock (t ∷ ts) = trade_row clock t ∷ rows clock ts

-- The number of the last trade, or `cursor` where there is none.
unfoldable pub last_id : ℤ → List RecentTrade → ℤ
last_id cursor [] = cursor
last_id cursor (t ∷ ts) = last_id t.id ts

-- What a call of `TradesSince` reads: at most `limit` trades behind the cursor, and one at least.
abbrev pub page : ℤ → ℕ → List RecentTrade → List RecentTrade
page cursor limit recent = take (max limit 1) (newer cursor recent)

module _ (clock : Time → Bytes) where
  collect_lem :
      (cursor : ℤ) (limit : ℕ) (ts : List RecentTrade) (out : ℕ) (last : ℤ)
      → let taken = take (suc (limit - out - 1)) (newer cursor ts) in
        collect clock cursor limit ts out last ≡ (rows clock taken, last_id last taken)
  unfolding collect newer rows last_id
  collect_lem cursor limit [] out last = refl
  collect_lem cursor limit (t ∷ ts) out last = elim (Bool-cases (leb_ℤ t.id cursor)) [
    | inl old ↦ rw old (collect_lem cursor limit ts out last)
    | inr new ↦ elim (Bool-cases (leb limit (out + 1))) [
      | inl full ↦
          let none_left : limit - out - 1 ≡ 0 = omega (arith, leb→le limit (out + 1) full) in
          rw (new, full, none_left) refl
      | inr room ↦
          let ih = collect_lem cursor limit ts (out + 1) t.id in
          let more : limit - out - 1 ≡ suc (limit - (out + 1) - 1) = some_left limit out room in
          rw (new, room, more) (ap (λ r. (trade_row clock t ∷ r.0, r.1)) ih)
    ]
  ]
    where
      some_left :
          (limit out : ℕ)
          → leb limit (out + 1) ≡ false
          → limit - out - 1 ≡ suc (limit - (out + 1) - 1)
      some_left limit out h = ground arith

  -- A reader gets the trades behind its cursor in their order, at most `limit` of them (one at least),
  -- and as the next cursor the number of the last one, or its own where there are none.
  pub trades_since-page :
      (r : Registry) (cursor : ℤ) (limit : ℕ)
      → trades_since clock r cursor limit
        ≡ (rows clock (page cursor limit r.recent), last_id cursor (page cursor limit r.recent))
  unfolding trades_since
  trades_since-page r cursor limit =
      let e : suc (limit - 0 - 1) ≡ max limit 1 = omega arith in
      rw (← e) (collect_lem cursor limit r.recent 0 cursor)
