-- ===== src/Dashboard/Delivery.antt =====
-- The tape of an open stream of internal/dashboard/server.go, over the registry of internal/live.
use tickstore.Prelude.{
  Bytes, List, Option, [], ap, append_assoc, arith, drop, length, length-append, max_i64, neg_ℤ,
  none, pos, refl, some, subst, sym, take, true, ℕ, ℤ, ◌++◌, ◌+ℤ◌, ◌+◌, ◌-◌, ◌<◌, ◌∙◌, ◌∷◌, ◌≡◌,
  ◌≤◌,
}
use tickstore.Norm.{Time, Trade}
use tickstore.Live.{Registry, TradeRow, latest_trade_id, new_registry, on_book, on_trade}
use tickstore.Live.Quotes.{Floats}
use tickstore.Live.Recent.{entries, record_all, record_all-kept, rows}
use tickstore.Live.Cursor.{
  HasRecorded, found_by, found_by-joined, length-found_by, on_trade-HasRecorded, rows-append,
  trades_since-found,
}
use tickstore.Dashboard.{json}
use tickstore.Dashboard.Stream.{
  Payload, StreamEvent, Turn, recorded, booked, turn, flushed, stream, build_payload, seed_cursor,
  open_stream, if_any,
}

module _ (f : Floats) where
  -- The trades that the connectors record while the stream is open.
  unfoldable pub recorded_in : List (StreamEvent f) → List Trade
  recorded_in [] = []
  recorded_in (recorded t ∷ es) = t ∷ recorded_in es
  recorded_in (booked b now ∷ es) = recorded_in es
  recorded_in (turn t ∷ es) = recorded_in es

  -- At most 100 trades come between two turns, `k` of them so far, and every turn's payload is flushed.
  abbrev pub IsPaced : ℕ → List (StreamEvent f) → Type 0
  IsPaced k [] = Unit
  IsPaced k (recorded t ∷ es) = (k < 100) × IsPaced (k + 1) es
  IsPaced k (booked b now ∷ es) = IsPaced k es
  IsPaced k (turn t ∷ es) = (t.fate ≡ flushed) × IsPaced 0 es

  abbrev pub trades_of : Option (List TradeRow) → List TradeRow
  trades_of none = []
  trades_of (some ts) = ts

  -- The rows of the tape that the client gets, over all payloads.
  unfoldable pub tape_of : List (Payload f) → List TradeRow
  tape_of [] = []
  tape_of (p ∷ ps) = trades_of p.trades ++ tape_of ps

  trades_of-if_any : (ts : List TradeRow) → trades_of (if_any ts) ≡ ts
  trades_of-if_any [] = refl
  trades_of-if_any (t ∷ ts) = refl

  module _ (clock : Time → Bytes) where
    tape-turn :
        (t : Turn f) (es : List (StreamEvent f)) (reg : Registry) (c tick : ℕ) (ts : List Trade)
        → t.fate ≡ flushed
        → HasRecorded reg ts
        → length ts ≤ c + 500
        → tape_of (stream f clock (turn t ∷ es) reg (pos c) tick)
          ≡ rows clock (entries c (found_by c ts))
            ++ tape_of (stream f clock es reg (pos (c + length (found_by c ts))) (tick + 1))
    unfolding stream build_payload tape_of
    tape-turn t es reg c tick ts sent h k =
        let rest = λ (cursor : ℤ). tape_of (stream f clock es reg cursor (tick + 1)) in
        let found = rows clock (entries c (found_by c ts)) in
        rw sent (
          ap (λ q. trades_of (if_any q.0) ++ rest q.1) (trades_since-found clock reg c ts h k)
          ∙ ap (λ l. l ++ rest (pos (c + length (found_by c ts)))) (trades_of-if_any found))

    -- The tape so far ends at a number `e`, at most 125 behind the latest one.
    abbrev pub Delivers : List Trade → ℕ → List TradeRow → Type 0
    Delivers all c tape =
        (e : ℕ) × (c ≤ e)
        × (length all ≤ e + 125)
        × (tape ≡ rows clock (entries c (take (e - c) (drop c all))))

    stream_lem :
        (es : List (StreamEvent f)) (reg : Registry) (ts : List Trade) (c k tick : ℕ)
        → HasRecorded reg ts
        → c ≤ length ts
        → length ts ≤ c + 25 + k
        → k ≤ 100
        → IsPaced k es
        → length ts + length (recorded_in es) ≤ max_i64
        → Delivers (ts ++ recorded_in es) c (tape_of (stream f clock es reg (pos c) tick))
    unfolding stream tape_of recorded_in rows entries
    stream_lem [] reg ts c k tick h lo hi few paced fits =
        let e : c - c ≡ 0 = omega arith in
        (c, omega arith, omega (arith, length-append ts []), rw e refl)
    stream_lem (recorded t ∷ es) reg ts c k tick h lo hi few paced fits =
        let ts' = ts ++ t ∷ [] in
        let n : length ts' ≡ length ts + 1 = length-append ts (t ∷ []) in
        subst (λ all. Delivers all c (tape_of (stream f clock es (on_trade reg t) (pos c) tick)))
          (append_assoc ts (t ∷ []) (recorded_in es))
          (stream_lem es (on_trade reg t) ts' c (k + 1) tick
            (on_trade-HasRecorded reg ts t h (omega arith)) (omega (arith, n)) (omega (arith, n))
            (omega arith) paced.1 (omega (arith, n)))
    stream_lem (booked b now ∷ es) reg ts c k tick h lo hi few paced fits =
        stream_lem es (on_book reg b now) ts c k tick (unfold on_book in h) lo hi few paced fits
    stream_lem (turn t ∷ es) reg ts c k tick h lo hi few paced fits =
        let d = c + length (found_by c ts) in
        let later = λ (e : ℕ). entries d (take (e - d) (drop d (ts ++ recorded_in es))) in
        let (e, more, near, tape) =
          stream_lem es reg ts d 0 (tick + 1) h (omega (arith, length-found_by c ts))
            (omega (arith, length-found_by c ts)) (omega arith) paced.1 fits in
        (
          e,
          omega arith,
          near,
          tape-turn t es reg c tick ts paced.0 h (omega arith)
              ∙ ap (◌++◌ (rows clock (entries c (found_by c ts)))) tape
              ∙ sym (rows-append clock (entries c (found_by c ts)) (later e))
              ∙ ap (rows clock) (found_by-joined c e ts (recorded_in es) lo more),
        )

    seed-cursor : (n : ℕ) → seed_cursor (pos n) ≡ pos (n - 25)
    unfolding seed_cursor ◌+ℤ◌ neg_ℤ
    seed-cursor n = ground arith

    -- A stream over a registry that recorded the trades `ts`, where at most 100 trades come between two
    -- turns, every payload is flushed, and fewer than 2^63 trades are recorded in all: the client gets
    -- the trades from the 25th last of `ts` on (from the first one where there are fewer) in their order,
    -- each once and none left out, up to a number that is at most 125 behind the latest trade.
    pub open_stream-Delivers :
        (ts : List Trade) (es : List (StreamEvent f))
        → IsPaced 0 es
        → length ts + length (recorded_in es) ≤ max_i64
        → (ps : List (Payload f)) × (open_stream f clock true (record_all new_registry ts) es
            ≡ json ps)
          × Delivers (ts ++ recorded_in es) (length ts - 25) (tape_of ps)
    unfolding open_stream
    open_stream-Delivers ts es paced fits =
        let reg = record_all new_registry ts in
        let (kept, latest) = record_all-kept ts (omega arith) in
        let start : seed_cursor (latest_trade_id reg) ≡ pos (length ts - 25) =
          ap seed_cursor latest ∙ seed-cursor (length ts) in
        (
          stream f clock es reg (pos (length ts - 25)) 0,
          ap (λ c. json (stream f clock es reg c 0)) start,
          stream_lem es reg ts (length ts - 25) 0 0 (unfold latest_trade_id in latest, kept)
              (omega arith) (omega arith) (omega arith) paced fits,
        )
