-- ===== src/Live/Quotes.antt =====
-- The quotes and ladders of internal/live/registry.go, over an abstract `float64`.
use tickstore.Prelude.{
  Assoc, Bool, Bytes, List, Option, [], bytes_eq, false, if◌then◌else◌, int_eq, lookup, ltb, nat_eq,
  neg_ℤ, none, pos, quot_ℤ, some, sort_slice, true, wrap64, ℕ, ℤ, ◌&&◌, ◌+ℤ◌, ◌==◌, ◌||◌, ◌∷◌,
}
use tickstore.Norm.{Level, Time, side_name}
use tickstore.Live.{BookState, Registry, TradeState, key}

-- `float64`, as far as the quotes use it: `of_fixed v` is `float64(v) / 1e8`.
pub record Floats : Type 1 where
  pub Num : Type 0
  pub zero_num : Num
  pub of_fixed : ℤ → Num
  pub is_positive : Num → Bool
  pub minus : Num → Num → Num
  pub midpoint : Num → Num → Num

-- The base, and the quote currency behind the first separator.
unfoldable pub split_symbol : Bytes → Bytes × Bytes
split_symbol [] = ([], [])
split_symbol (c ∷ s) =
    let (base, quote) = split_symbol s in
    if c == b'-' || c == b'/' then ([], s) else (c ∷ base, quote)

-- Go's `<` on strings.
unfoldable pub bytes_less : Bytes → Bytes → Bool
bytes_less [] [] = false
bytes_less [] (d ∷ t) = true
bytes_less (c ∷ s) [] = false
bytes_less (c ∷ s) (d ∷ t) = if c == d then bytes_less s t else ltb c d

module _ (f : Floats) where
  open f use {Num, zero_num, of_fixed, is_positive, minus, midpoint}

  pub record DepthRow : Type 0 where
    pub price : Num
    pub size : Num
    pub cum : Num

  -- The running total is an `int64`.
  unfoldable pub ladder_from : ℤ → List Level → List DepthRow
  ladder_from cum [] = []
  ladder_from cum (l ∷ ls) =
      let total = wrap64 (cum +ℤ l.size) in
      record { price = of_fixed l.price; size = of_fixed l.size; cum = of_fixed total }
      ∷ ladder_from total ls

  unfoldable pub ladder : List Level → List DepthRow
  unfolding ladder_from
  ladder = ladder_from (pos 0)

  -- `Depth` of one market; `none` where it is not known.
  unfoldable pub market_depth : Registry → Bytes → Bytes → Option (List DepthRow × List DepthRow)
  market_depth r venue symbol = elim (lookup (key venue symbol) r.books) [
    | none ↦ none
    | some b ↦ some (ladder b.bids, ladder b.asks)
  ]

  unfoldable pub ladders : Assoc Bytes BookState → Assoc Bytes (List DepthRow × List DepthRow)
  ladders [] = []
  ladders ((k, b) ∷ m) = (k, (ladder b.bids, ladder b.asks)) ∷ ladders m

  unfoldable pub all_depth : Registry → Assoc Bytes (List DepthRow × List DepthRow)
  unfolding ladders
  all_depth r = ladders r.books

  pub record Quote : Type 0 where
    pub venue : Bytes
    pub symbol : Bytes
    pub base : Bytes
    pub quote : Bytes
    pub bid : Num
    pub ask : Num
    pub bid_size : Num
    pub ask_size : Num
    pub spread : Num
    pub mid : Num
    pub last : Num
    pub last_side : Bytes
    pub seq : ℕ
    pub gaps : ℕ
    pub resyncs : ℕ
    pub synced : Bool
    pub age_millis : ℤ

  abbrev best_price : List Level → Num
  best_price [] = zero_num
  best_price (l ∷ ls) = of_fixed l.price

  abbrev best_size : List Level → Num
  best_size [] = zero_num
  best_size (l ∷ ls) = of_fixed l.size

  abbrev last_price : Option TradeState → Num
  last_price none = zero_num
  last_price (some t) = of_fixed t.price

  abbrev last_side_name : Option TradeState → Bytes
  last_side_name none = []
  last_side_name (some t) = side_name t.side

  -- One market's quote; `now` is the time of the poll.
  unfoldable pub quote_of : Time → BookState → Option TradeState → Quote
  quote_of now b t =
      let (base, quote) = split_symbol b.symbol in
      let bid = best_price b.bids in
      let ask = best_price b.asks in
      let two_sided = is_positive bid && is_positive ask in
      record {
        venue = b.venue;
        symbol = b.symbol;
        base = base;
        quote = quote;
        bid = bid;
        ask = ask;
        bid_size = best_size b.bids;
        ask_size = best_size b.asks;
        spread = if two_sided then minus ask bid else zero_num;
        mid = if two_sided then midpoint ask bid else zero_num;
        last = last_price t;
        last_side = last_side_name t;
        seq = b.seq;
        gaps = b.gaps;
        resyncs = b.resyncs;
        synced = b.synced;
        age_millis = quot_ℤ (now +ℤ neg_ℤ b.updated) 1_000_000;
      }

  unfoldable pub quote_less : Quote → Quote → Bool
  unfolding bytes_less
  quote_less p q = if p.base == q.base then bytes_less p.venue q.venue else bytes_less p.base q.base

  unfoldable pub quotes_from : Time → Assoc Bytes BookState → Assoc Bytes TradeState → List Quote
  unfolding quote_of
  quotes_from now [] trades = []
  quotes_from now ((k, b) ∷ m) trades = quote_of now b (lookup k trades) ∷ quotes_from now m trades

  unfoldable pub quotes : Registry → Time → List Quote
  unfolding quotes_from quote_less
  quotes r now = sort_slice quote_less (quotes_from now r.books r.trades)
