-- ===== src/Live/Grid.antt =====
-- The quotes of a poll of internal/live/registry.go, and their order.
use mathlib.Core.List.{Perm}
use mathlib.Core.List.Perm
use tickstore.Prelude.{Bytes, List}
use tickstore.Live.{BookState}
use tickstore.Live.Quotes.{Floats, Quote, split_symbol}

-- The venue and the symbol of an entry of the registry.
abbrev pub market : Bytes × BookState → Bytes × Bytes
market (k, b) = (b.venue, b.symbol)

-- The base and the venue of a market.
abbrev rank_of : Bytes × Bytes → Bytes × Bytes
rank_of (venue, symbol) = ((split_symbol symbol).0, venue)

module _ (f : Floats) where
  abbrev pub quoted : Quote f → Bytes × Bytes
  quoted q = (q.venue, q.symbol)

  -- What orders a quote.
  abbrev pub rank : Quote f → Bytes × Bytes
  rank q = (q.base, q.venue)
