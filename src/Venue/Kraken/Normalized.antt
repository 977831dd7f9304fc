-- ===== src/Venue/Kraken/Normalized.antt =====
-- The trades of the parser in internal/venue/kraken/parse.go.
use tickstore.Prelude.{
  >>=-eq-ok, Bool-cases, Bytes, List, [], above, bytes_beq_iff, bytes_eq, codes, err_not_ok, inl,
  inr, int_eq, ltb_ℤ, nat_eq, not, ok, ok_inj, or_fail, or_fail-eq-ok, pos, refl, require,
  require-eq-ok, some, subst, sym, wrap_error, wrap_error-eq-ok, ◌==◌, ◌∷◌, ◌≡◌,
}
use tickstore.Norm.{Side, Time, Trade, buy, sell, side_name}
use tickstore.Norm.Fixed.{parse_fixed}
use tickstore.Norm.Decimal.{format_int}
use tickstore.Venue.Trades.{AllPairs, IsTrade, positive, Read-at_8, set_of_not}
use tickstore.Venue.Kraken.{
  Decoder, WireTrade, bad_price, bad_size, bad_time, missing_symbol, name, non_positive_price,
  non_positive_size, normalize_all, normalize_trade, taker_side,
}

-- A trade against its row: also its side and its identifier.
abbrev pub IsKrakenTrade : Decoder → Time → WireTrade → Trade → Type 0
IsKrakenTrade d now w t =
    IsTrade name w.symbol w.price w.qty now t
    × (side_name t.side ≡ w.side)
    × (t.trade_id ≡ format_int w.trade_id)
    × (d.time w.timestamp ≡ some t.ts_exchange)

taker_side-name : (s : Bytes) (side : Side) → taker_side s ≡ ok side → side_name side ≡ s
unfolding taker_side
taker_side-name s side h = elim (Bool-cases (s == codes "buy")) [
  | inl e ↦
      let got : buy ≡ side = ok_inj (rw e at h) in
      rw (← got) (unfold side_name in sym ((bytes_beq_iff s (codes "buy")).0 e))
  | inr e ↦ elim (Bool-cases (s == codes "sell")) [
    | inl f ↦
        let got : sell ≡ side = ok_inj (rw (e, f) at h) in
        rw (← got) (unfold side_name in sym ((bytes_beq_iff s (codes "sell")).0 f))
    | inr f ↦ absurd (err_not_ok (rw (e, f) at h))
  ]
]

normalize_trade-IsKrakenTrade :
    (d : Decoder) (w : WireTrade) (now : Time) (t : Trade)
    → normalize_trade d w now ≡ ok t
    → IsKrakenTrade d now w t
unfolding normalize_trade
normalize_trade-IsKrakenTrade d w now t h =
    let (u0, named, h0) = >>=-eq-ok (require (not (w.symbol == [])) missing_symbol) _ h in
    let (side, sided, h1) = >>=-eq-ok (taker_side w.side) _ h0 in
    let (price, priced, h2) = >>=-eq-ok (wrap_error bad_price (parse_fixed w.price (pos 8))) _ h1 in
    let (u1, above, h3) = >>=-eq-ok (require (ltb_ℤ (pos 0) price) non_positive_price) _ h2 in
    let (size, sized, h4) = >>=-eq-ok (wrap_error bad_size (parse_fixed w.qty (pos 8))) _ h3 in
    let (u2, over, h5) = >>=-eq-ok (require (ltb_ℤ (pos 0) size) non_positive_size) _ h4 in
    let (ts, timed, h6) = >>=-eq-ok (or_fail bad_time (d.time w.timestamp)) _ h5 in
    subst (IsKrakenTrade d now w) (ok_inj h6) (
      record {
        venue_named = refl;
        symbol_named = refl;
        symbol_set = set_of_not w.symbol (require-eq-ok _ missing_symbol named);
        price_read = Read-at_8 w.price price (wrap_error-eq-ok bad_price _ priced);
        price_positive = positive price (require-eq-ok _ non_positive_price above);
        size_read = Read-at_8 w.qty size (wrap_error-eq-ok bad_size _ sized);
        size_positive = positive size (require-eq-ok _ non_positive_size over);
        received = refl;
      },
      taker_side-name w.side side sided,
      refl,
      or_fail-eq-ok bad_time (d.time w.timestamp) timed,
    )

-- The rows of a frame that parses give one trade each, in order: of the venue, with the row's symbol,
-- taker side and identifier, the frame's time of receipt, and a positive price and size that are
-- exactly the numbers that the row spells.
pub normalize_all-IsKrakenTrade :
    (d : Decoder) (ws : List WireTrade) (now : Time) (ts : List Trade)
    → normalize_all d ws now ≡ ok ts
    → AllPairs (IsKrakenTrade d now) ws ts
unfolding normalize_all
normalize_all-IsKrakenTrade d [] now ts h = subst (AllPairs (IsKrakenTrade d now) []) (ok_inj h) tt
normalize_all-IsKrakenTrade d (w ∷ ws) now ts h =
    let (t, first, h0) = >>=-eq-ok (normalize_trade d w now) _ h in
    let (rest, later, h1) = >>=-eq-ok (normalize_all d ws now) _ h0 in
    subst (AllPairs (IsKrakenTrade d now) (w ∷ ws)) (ok_inj h1) (
      normalize_trade-IsKrakenTrade d w now t first,
      normalize_all-IsKrakenTrade d ws now rest later,
    )
