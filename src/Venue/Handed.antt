-- ===== src/Venue/Handed.antt =====
-- Lemmas about the trades that the trade feeds of internal/venue hand on.
pub mod Parsers
use tickstore.Prelude.{
  All, All-append, Bool, Bool-cases, Bytes, List, Result, Result-cases, [], false, if◌then◌else◌,
  inl, inr, ok, pos, sym, true, ℕ, ◌∙◌, ◌∷◌, ◌≡◌, ◌≢◌, ◌≤ℤ◌,
}
use tickstore.Norm.{Time, Trade}
use tickstore.Venue.Feed.{FeedLog, read_frame, read_loop}
use tickstore.Venue.Reconnect.{double_capped, rand_below}
use tickstore.Venue.Connection.{Call, Feed, Line, Ran, Visit, end_visit, run, session, write_all}
use tickstore.Venue.Trades.{IsTrade}

-- A trade of the venue with a symbol, a positive price and a positive size.
pub record IsSane (venue : Bytes) (t : Trade) : Type 0 where
  pub venue_named : t.venue ≡ venue
  pub symbol_set : t.symbol ≢ []
  pub price_positive : pos 1 ≤ℤ t.price
  pub size_positive : pos 1 ≤ℤ t.size

-- What a parser promises of the trades of a frame.
abbrev pub AllSane : {E : Type 0} → Bytes → (Bytes → Time → Result E (List Trade)) → Type 0
AllSane venue parse =
    (raw : Bytes) (now : Time) (ts : List Trade) → parse raw now ≡ ok ts → All (IsSane venue) ts

pub IsTrade-IsSane :
    {venue symbol price size : Bytes} {now : Time} {t : Trade}
    → IsTrade venue symbol price size now t
    → IsSane venue t
IsTrade-IsSane h = record {
  venue_named = h.venue_named;
  symbol_set = λ e. h.symbol_set (sym h.symbol_named ∙ e);
  price_positive = h.price_positive;
  size_positive = h.size_positive;
}

module _ {E : Type 0} (parse : Bytes → Time → Result E (List Trade)) (is_fatal : E → Bool)
    (venue : Bytes) (sane : AllSane venue parse) where
  read_frame-IsSane :
      (log : FeedLog) (f : Bytes × Time)
      → All (IsSane venue) log.trades
      → All (IsSane venue) (read_frame parse is_fatal log f).trades
  unfolding read_frame
  read_frame-IsSane log (raw, now) h = elim (Result-cases (parse raw now)) [
    | inl (ts, e) ↦
        rw (read_frame, e) (All-append (IsSane venue) log.trades ts h (sane raw now ts e))
    | inr (x, e) ↦ elim (Bool-cases (is_fatal x)) [
      | inl fatal ↦ rw (read_frame, e, fatal) h
      | inr mild ↦ rw (read_frame, e, mild) h
    ]
  ]

  pub read_loop-IsSane :
      (fs : List (Bytes × Time)) (log : FeedLog)
      → All (IsSane venue) log.trades
      → All (IsSane venue) (read_loop parse is_fatal fs log).trades
  unfolding read_loop
  read_loop-IsSane [] log h = h
  read_loop-IsSane (f ∷ fs) log h =
      let next = read_frame-IsSane log f h in
      elim (Bool-cases (read_frame parse is_fatal log f).rejected) [
        | inl e ↦ rw (read_loop, e) next
        | inr e ↦ rw (read_loop, e) (read_loop-IsSane fs (read_frame parse is_fatal log f) next)
      ]
