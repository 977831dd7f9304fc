-- ===== src/Venue/Reading.antt =====
-- The read loop of the trade feeds of internal/venue, over a list of frames.
use tickstore.Prelude.{
  Bool, Bool-cases, Bytes, List, Result, Result-cases, [], append-nil, append_assoc, arith, err,
  false, if◌then◌else◌, inl, inr, length, ok, refl, suc, sym, true, ℕ, ◌++◌, ◌+◌, ◌||◌, ◌∙◌, ◌∷◌,
  ◌≡◌,
}
use tickstore.Norm.{Time, Trade}
use tickstore.Venue.Feed.{FeedLog, read_frame, read_loop}

-- What a frame holds: its trades, an error to report, or the venue's refusal.
pub data Parsed : Type 0 where
  good : List Trade → Parsed
  bad refused : Parsed

unfoldable pub trades_of : List Parsed → List Trade
trades_of [] = []
trades_of (good ts ∷ ps) = ts ++ trades_of ps
trades_of (bad ∷ ps) = trades_of ps
trades_of (refused ∷ ps) = trades_of ps

unfoldable pub count_bad : List Parsed → ℕ
count_bad [] = 0
count_bad (bad ∷ ps) = suc (count_bad ps)
count_bad (good ts ∷ ps) = count_bad ps
count_bad (refused ∷ ps) = count_bad ps

unfoldable pub some_good : List Parsed → Bool
some_good [] = false
some_good (good ts ∷ ps) = true
some_good (bad ∷ ps) = some_good ps
some_good (refused ∷ ps) = some_good ps

unfoldable pub some_refused : List Parsed → Bool
some_refused [] = false
some_refused (good ts ∷ ps) = some_refused ps
some_refused (bad ∷ ps) = some_refused ps
some_refused (refused ∷ ps) = true

log_eq :
    (ts us : List Trade) (m n k l : ℕ) (b c r s : Bool)
    → ts ≡ us
    → m ≡ n
    → k ≡ l
    → b ≡ c
    → r ≡ s
    → ◌≡◌ {A = FeedLog}
        (record { trades = ts; messages = m; parse_errors = k; got_data = b; rejected = r })
        (record { trades = us; messages = n; parse_errors = l; got_data = c; rejected = s })
log_eq ts us m n k l b c r s e f g h q = rw (e, f, g, h, q) refl

or_false : (b : Bool) → (b || false) ≡ b
or_false true = refl
or_false false = refl

or_true : (b : Bool) → (b || true) ≡ true
or_true true = refl
or_true false = refl

module _ {E : Type 0} (parse : Bytes → Time → Result E (List Trade)) (is_fatal : E → Bool) where
  abbrev pub parsed : Bytes × Time → Parsed
  parsed (raw, now) = elim (parse raw now) [
    | ok ts ↦ good ts
    | err e ↦ if is_fatal e then refused else bad
  ]

  -- The frames that the loop reads: all, or those up to the first refusal.
  unfoldable pub frames_read : List (Bytes × Time) → List Parsed
  frames_read [] = []
  frames_read (f ∷ fs) =
      let rest = frames_read fs in elim (parsed f) [ refused ↦ refused ∷ [] | q ↦ q ∷ rest ]

  -- The log before these frames, and what they add.
  abbrev pub after : FeedLog → List Parsed → FeedLog
  after log ps = record {
    trades = log.trades ++ trades_of ps;
    messages = log.messages + length ps;
    parse_errors = log.parse_errors + count_bad ps;
    got_data = log.got_data || some_good ps;
    rejected = some_refused ps;
  }

  -- Added to a log that has no refusal yet, a feed hands on exactly the trades of the frames that parse,
  -- in order, up to the frame in which the venue refuses; every frame read is counted, and so is every
  -- other one that does not parse; and the session has received data if some frame parsed.
  pub read_loop-after :
      (fs : List (Bytes × Time)) (log : FeedLog)
      → log.rejected ≡ false
      → read_loop parse is_fatal fs log ≡ after log (frames_read fs)
  unfolding read_loop frames_read trades_of count_bad some_good some_refused
  read_loop-after [] log h =
      log_eq log.trades (log.trades ++ []) log.messages (log.messages + 0) log.parse_errors
        (log.parse_errors + 0) log.got_data (log.got_data || false) log.rejected false
        (sym (append-nil log.trades)) (omega arith) (omega arith) (sym (or_false log.got_data)) h
  read_loop-after ((raw, now) ∷ fs) log h =
      let ps = frames_read fs in
      elim (Result-cases (parse raw now)) [
        | inl (ts, e) ↦
            let next : FeedLog = record log {
              trades = log.trades ++ ts;
              messages = log.messages + 1;
              got_data = true;
              rejected = false;
            } in
            rw (read_loop, read_frame, e, h)
              (read_loop-after fs next refl
                ∙ rw (frames_read, e)
                    (log_eq ((log.trades ++ ts) ++ trades_of ps)
                      (log.trades ++ (ts ++ trades_of ps)) (log.messages + 1 + length ps)
                      (log.messages + suc (length ps)) (log.parse_errors + count_bad ps)
                      (log.parse_errors + count_bad ps) true (log.got_data || true)
                      (some_refused ps) (some_refused ps)
                      (append_assoc log.trades ts (trades_of ps)) (omega arith) refl
                      (sym (or_true log.got_data)) refl))
        | inr (x, e) ↦ elim (Bool-cases (is_fatal x)) [
          | inl f ↦
              rw (read_loop, read_frame, e, f)
                (rw (frames_read, e, f)
                  (log_eq log.trades (log.trades ++ []) (log.messages + 1) (log.messages + 1)
                    log.parse_errors (log.parse_errors + 0) log.got_data (log.got_data || false)
                    true true (sym (append-nil log.trades)) refl (omega arith)
                    (sym (or_false log.got_data)) refl))
          | inr f ↦
              let next : FeedLog = record log {
                messages = log.messages + 1;
                parse_errors = log.parse_errors + 1;
                rejected = false;
              } in
              rw (read_loop, read_frame, e, f, h)
                (read_loop-after fs next refl
                  ∙ rw (frames_read, e, f)
                      (log_eq (log.trades ++ trades_of ps) (log.trades ++ trades_of ps)
                        (log.messages + 1 + length ps) (log.messages + suc (length ps))
                        (log.parse_errors + 1 + count_bad ps)
                        (log.parse_errors + suc (count_bad ps)) (log.got_data || some_good ps)
                        (log.got_data || some_good ps) (some_refused ps) (some_refused ps) refl
                        (omega arith) (omega arith) refl refl))
        ]
      ]
