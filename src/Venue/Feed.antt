-- ===== src/Venue/Feed.antt =====
-- internal/venue/venue.go and internal/venue/book.go: where a connector sends what it parsed. The
-- calls of a sink, an observer and the metrics are the effects of a step, in their order.
use tickstore.Prelude.{
  Bool, Bytes, List, Result, [], err, false, if◌then◌else◌, ok, true, ℕ, ◌++◌, ◌+◌, ◌∷◌,
}
use tickstore.Norm.{BookSnapshot, BookUpdate, Level, Side, Time, Trade, buy, sell}
use tickstore.Book.{Book}

pub data Effect : Type 0 where
  stored : BookUpdate → Effect
  observed : Book → Effect
  count_gap count_resync : Effect

-- Which of the connector's optional receivers are set.
pub record Ports : Type 0 where
  pub has_sink : Bool
  pub has_observer : Bool

abbrev pub store : Ports → BookUpdate → List Effect
store p u = if p.has_sink then stored u ∷ [] else []

abbrev pub observe : Ports → Book → List Effect
observe p b = if p.has_observer then observed b ∷ [] else []

unfoldable pub snapshot_row : BookSnapshot → Side → Level → BookUpdate
snapshot_row s side l = record {
  venue = s.venue;
  symbol = s.symbol;
  ts_exchange = s.ts_exchange;
  ts_received = s.ts_received;
  side = side;
  price = l.price;
  size = l.size;
  seq = s.seq;
  is_snapshot = true;
}

unfoldable pub emit : BookSnapshot → Side → List Level → List Effect
unfolding snapshot_row
emit s side [] = []
emit s side (l ∷ ls) = stored (snapshot_row s side l) ∷ emit s side ls

unfoldable pub emit_snapshot : Ports → BookSnapshot → List Effect
unfolding emit
emit_snapshot p s = if p.has_sink then emit s buy s.bids ++ emit s sell s.asks else []

-- What a session of a trade feed did: the trades that the handler got, the frames read, the frames
-- that did not parse, whether data came, and whether the venue's error ended it (else a failed
-- read did, at the end of the frames).
pub record FeedLog : Type 0 where
  pub trades : List Trade
  pub messages : ℕ
  pub parse_errors : ℕ
  pub got_data : Bool
  pub rejected : Bool

module _ {E : Type 0} (parse : Bytes → Time → Result E (List Trade)) (is_fatal : E → Bool) where
  unfoldable pub read_frame : FeedLog → Bytes × Time → FeedLog
  read_frame log (raw, now) = elim (parse raw now) [
    | ok trades ↦ record log {
      trades = log.trades ++ trades;
      messages = log.messages + 1;
      got_data = true;
    }
    | err e ↦
        if is_fatal e
        then record log { messages = log.messages + 1; rejected = true }
        else record log { messages = log.messages + 1; parse_errors = log.parse_errors + 1 }
  ]

  -- The read loop of a trade session, over the frames that arrive before a read fails.
  unfoldable pub read_loop : List (Bytes × Time) → FeedLog → FeedLog
  unfolding read_frame
  read_loop [] log = log
  read_loop (f ∷ fs) log =
      let next = read_frame log f in
      let rest = read_loop fs next in if next.rejected then next else rest

abbrev pub start_log : FeedLog
start_log = record {
  trades = [];
  messages = 0;
  parse_errors = 0;
  got_data = false;
  rejected = false;
}
