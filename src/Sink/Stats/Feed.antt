-- ===== src/Sink/Stats/Feed.antt =====
-- The order of the rows of `RecentTrades` in internal/sink/stats.go.
use mathlib.Core.List
use native.Mathlib.Nat.{zero-add}
use mathlib.Core.List.{reverse-cons, reverse-append}
use tickstore.Prelude.{
  Bytes, ok, >>=-eq-ok, map, err_not_ok, false, ◌↔◌, ◌<◌, List, [], ap, append-nil, append_assoc,
  arith, get_elem?, length, length-append, refl, some, suc, sym, zero, ℕ, ◌++◌, ◌+◌, ◌-◌, ◌∙◌, ◌∷◌,
  ◌≡◌, ◌≤◌,
}
use tickstore.Norm.{Time}
use tickstore.Sink.Stats.Scanned.{or_broken-inv, scan_points-inv, scan_points_all}
use tickstore.Sink.Stats.{
  Answer, FeedRow, TradeRow, feed_row, no_answer, or_broken, recent_trades, scan_points, reverse,
  set, swap_at, swap_ends,
}

module _ {A : Type 0} where
  get_elem?-middle :
      (pre : List A) (a : A) (post : List A) → get_elem? (pre ++ a ∷ post) (length pre) ≡ some a
  get_elem?-middle [] a post = refl
  get_elem?-middle (x ∷ pre) a post = get_elem?-middle pre a post

  set-middle :
      (pre : List A) (a : A) (post : List A) (v : A)
      → set (pre ++ a ∷ post) (length pre) v ≡ pre ++ v ∷ post
  set-middle [] a post v = refl
  set-middle (x ∷ pre) a post v = ap (◌∷◌ x) (set-middle pre a post v)

  -- The two ends of a middle part change places.
  swap_at-ends :
      (pre mid post : List A) (a b : A)
      → let i = length pre in
        let j = length pre + length mid + 1 in
        let xs = pre ++ a ∷ (mid ++ b ∷ post) in
        swap_at xs i j (get_elem? xs i) (get_elem? xs j) ≡ (pre ++ b ∷ []) ++ (mid ++ a ∷ post)
  swap_at-ends pre mid post a b =
      let ys = pre ++ a ∷ mid in
      let n : length pre + length mid + 1 ≡ length ys =
        omega (arith, length-append pre (a ∷ mid)) in
      let split : pre ++ a ∷ (mid ++ b ∷ post) ≡ ys ++ b ∷ post =
        sym (append_assoc pre (a ∷ mid) (b ∷ post)) in
      let xs = pre ++ a ∷ (mid ++ b ∷ post) in
      let first : get_elem? xs (length pre) ≡ some a = get_elem?-middle pre a (mid ++ b ∷ post) in
      let last : get_elem? xs (length pre + length mid + 1) ≡ some b =
        ap (λ l. get_elem? l (length pre + length mid + 1)) split
        ∙ ap (get_elem? (ys ++ b ∷ post)) n
        ∙ get_elem?-middle ys b post in
      let once : set xs (length pre) b ≡ (pre ++ b ∷ mid) ++ b ∷ post =
        set-middle pre a (mid ++ b ∷ post) b ∙ sym (append_assoc pre (b ∷ mid) (b ∷ post)) in
      let m : length pre + length mid + 1 ≡ length (pre ++ b ∷ mid) =
        omega (arith, length-append pre (b ∷ mid)) in
      ap
        (λ o.
          swap_at xs (length pre) (length pre + length mid + 1) o
            (get_elem? xs (length pre + length mid + 1)))
        first
      ∙ ap (swap_at xs (length pre) (length pre + length mid + 1) (some a)) last
      ∙ ap (λ l. set l (length pre + length mid + 1) a) once
      ∙ ap (λ k. set ((pre ++ b ∷ mid) ++ b ∷ post) k a) m
      ∙ set-middle (pre ++ b ∷ mid) b post a
      ∙ append_assoc pre (b ∷ mid) (a ∷ post)
      ∙ sym (append_assoc pre (b ∷ []) (mid ++ a ∷ post))

  -- A list is empty, has one element, or two ends.
  data Ends : List A → Type 0 where
    none_left : Ends []
    one_left : (a : A) → Ends (a ∷ [])
    two_ends : (a : A) (mid : List A) (b : A) → Ends (a ∷ (mid ++ b ∷ []))

  Ends-cons : (a : A) {xs : List A} → Ends xs → Ends (a ∷ xs)
  Ends-cons a none_left = one_left a
  Ends-cons a (one_left b) = two_ends a [] b
  Ends-cons a (two_ends x mid b) = two_ends a (x ∷ mid) b

  ends : (xs : List A) → Ends xs
  ends [] = none_left
  ends (a ∷ xs) = Ends-cons a (ends xs)

  reverse-ends :
      (a b : A) (mid post : List A)
      → List.reverse (a ∷ (mid ++ b ∷ [])) ++ post ≡ b ∷ (List.reverse mid ++ a ∷ post)
  reverse-ends a b mid post =
      ap (λ l. l ++ post)
        (reverse-cons a (mid ++ b ∷ []) ∙ ap (λ l. l ++ a ∷ []) (reverse-append mid (b ∷ [])))
      ∙ ap (◌∷◌ b) (append_assoc (List.reverse mid) (a ∷ []) post)

  swap_ends-stop : (left i j : ℕ) (xs : List A) → j ≤ i + 1 → swap_ends (suc left) i j xs ≡ xs
  unfolding swap_ends
  swap_ends-stop left i j xs h = ground arith

  swap_ends-go :
      (left i j : ℕ) (xs : List A)
      → i + 1 < j
      → swap_ends (suc left) i j xs
        ≡ swap_ends left
            (i + 1)
            (j - 1)
            (swap_at xs i (j - 1) (get_elem? xs i) (get_elem? xs (j - 1)))
  unfolding swap_ends
  swap_ends-go left i j xs h = ground arith

  -- The loop turns the part between its ends around.
  swap_ends-reverse :
      (left : ℕ) (pre : List A) {mid : List A} (post : List A)
      → Ends mid
      → length mid ≤ left
      → swap_ends left (length pre) (length pre + length mid) (pre ++ (mid ++ post))
        ≡ pre ++ (List.reverse mid ++ post)
  unfolding swap_ends
  swap_ends-reverse zero pre post none_left h = refl
  swap_ends-reverse zero pre post (one_left a) h = absurd (omega arith)
  swap_ends-reverse zero pre post (two_ends a mid b) h = absurd (omega arith)
  swap_ends-reverse (suc left) pre post none_left h =
      swap_ends-stop left (length pre) (length pre + 0) (pre ++ post) (omega arith)
  swap_ends-reverse (suc left) pre post (one_left a) h =
      swap_ends-stop left (length pre) (length pre + 1) (pre ++ a ∷ post) (omega arith)
  swap_ends-reverse (suc left) pre post (two_ends a mid b) h =
      let n = length (mid ++ b ∷ []) in
      let e : n ≡ length mid + 1 = length-append mid (b ∷ []) in
      let i = length pre in
      let k = length pre + length mid + 1 in
      let xs = pre ++ a ∷ (mid ++ b ∷ post) in
      let front = pre ++ b ∷ [] in
      let turn =
        λ (j : ℕ). swap_ends left (i + 1) j (swap_at xs i j (get_elem? xs i) (get_elem? xs j)) in
      ap (λ l. swap_ends (suc left) i (i + suc n) (pre ++ a ∷ l)) (append_assoc mid (b ∷ []) post)
      ∙ swap_ends-go left i (i + suc n) xs (omega (arith, e))
      ∙ ap turn (omega (arith, e))
      ∙ ap (swap_ends left (i + 1) k) (swap_at-ends pre mid post a b)
      ∙ ap (λ m. swap_ends left m k (front ++ (mid ++ a ∷ post))) (sym (length-append pre (b ∷ [])))
      ∙ ap (λ m. swap_ends left (length front) m (front ++ (mid ++ a ∷ post)))
          (omega (arith, length-append pre (b ∷ [])))
      ∙ swap_ends-reverse left front (a ∷ post) (ends mid) (omega (arith, e))
      ∙ append_assoc pre (b ∷ []) (List.reverse mid ++ a ∷ post)
      ∙ ap (◌++◌ pre) (sym (reverse-ends a b mid post))

  pub reverse_lem : (xs : List A) → reverse xs ≡ List.reverse xs
  unfolding reverse
  reverse_lem xs =
      ap (λ m. swap_ends (length xs) 0 m xs) (sym (zero-add (length xs)))
      ∙ ap (swap_ends (length xs) 0 (0 + length xs)) (sym (append-nil xs))
      ∙ swap_ends-reverse (length xs) [] [] (ends xs) (omega arith)
      ∙ append-nil (List.reverse xs)

module _ (clock : Time → Bytes) where
  recent_trades_all :
      (scanned : List TradeRow)
      → recent_trades clock (Answer.rows (map some scanned) false)
        ≡ ok (List.reverse (map (feed_row clock) scanned))
  unfolding recent_trades
  recent_trades_all scanned =
      rw (scan_points_all (feed_row clock) scanned)
        (ap ok (reverse_lem (map (feed_row clock) scanned)))

  -- `RecentTrades` returns rows exactly where the query is answered, every row of the answer scans and
  -- the connection holds to the end; and then it returns every row of the answer, formatted, in the
  -- reverse of the answer's order.
  pub recent_trades_iff :
      (a : Answer TradeRow) (out : List FeedRow)
      → (recent_trades clock a ≡ ok out) ↔ (
          (scanned : List TradeRow) × (a ≡ Answer.rows (map some scanned) false)
          × (out ≡ List.reverse (map (feed_row clock) scanned)))
  unfolding recent_trades
  recent_trades_iff no_answer out = (
    λ h. absurd (err_not_ok h),
    λ (scanned, e, f). ap (recent_trades clock) e ∙ recent_trades_all scanned ∙ ap ok (sym f),
  )
  recent_trades_iff (Answer.rows rs broken) out = (
    λ h.
        let (read, e, f) =
          >>=-eq-ok (scan_points (feed_row clock) rs) (λ ps. or_broken broken (reverse ps)) h in
        let (scanned, same, made) = scan_points-inv (feed_row clock) rs read e in
        let (whole, g) = or_broken-inv broken (reverse read) f in
        (
          scanned,
          ap (λ l. Answer.rows l broken) same ∙ ap (Answer.rows (map some scanned)) whole,
          sym g ∙ ap reverse made ∙ reverse_lem (map (feed_row clock) scanned),
        ),
    λ (scanned, e, f). ap (recent_trades clock) e ∙ recent_trades_all scanned ∙ ap ok (sym f),
  )
