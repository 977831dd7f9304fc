-- ===== src/Venue/Coinbase/Normalized.antt =====
-- The trades of the parser in internal/venue/coinbase/parse.go.
use tickstore.Prelude.{
  >>=-eq-ok, Bool-cases, Bytes, List, [], above, bytes_beq_iff, bytes_eq, codes, err_not_ok, inl,
  inr, int_eq, ltb_ℤ, nat_eq, not, ok, ok_inj, or_fail, or_fail-eq-ok, pos, refl, require,
  require-eq-ok, some, subst, sym, wrap_error, wrap_error-eq-ok, ◌==◌, ◌≡◌, ◌⊎◌,
}
use tickstore.Norm.{Side, Time, Trade, buy, sell, side_name, side_unknown}
use tickstore.Norm.Fixed.{parse_fixed}
use tickstore.Norm.Decimal.{format_int}
use tickstore.Venue.Trades.{IsTrade, positive, Read-at_8, set_of_not}
use tickstore.Venue.Coinbase.{
  Decoder, WireMessage, bad_json, bad_price, bad_size, bad_time, is_skipped, missing_product_id,
  name, non_positive_price, non_positive_size, normalize, one, parse_message, taker_side,
}

-- The other side of a trade.
abbrev pub opposite : Side → Side
opposite buy = sell
opposite sell = buy
opposite side_unknown = side_unknown

-- A trade against its message, which names the maker's side: also its side and its identifier.
abbrev pub IsCoinbaseTrade : Decoder → Time → WireMessage → Trade → Type 0
IsCoinbaseTrade d now w t =
    IsTrade name w.product_id w.price w.size now t
    × (side_name (opposite t.side) ≡ w.side)
    × (t.trade_id ≡ format_int w.trade_id)
    × (d.time w.time ≡ some t.ts_exchange)

taker_side-name : (s : Bytes) (side : Side) → taker_side s ≡ ok side → side_name (opposite side) ≡ s
unfolding taker_side
taker_side-name s side h = elim (Bool-cases (s == codes "sell")) [
  | inl e ↦
      let got : buy ≡ side = ok_inj (rw e at h) in
      rw (← got) (unfold side_name in sym ((bytes_beq_iff s (codes "sell")).0 e))
  | inr e ↦ elim (Bool-cases (s == codes "buy")) [
    | inl f ↦
        let got : sell ≡ side = ok_inj (rw (e, f) at h) in
        rw (← got) (unfold side_name in sym ((bytes_beq_iff s (codes "buy")).0 f))
    | inr f ↦ absurd (err_not_ok (rw (e, f) at h))
  ]
]

normalize-IsCoinbaseTrade :
    (d : Decoder) (w : WireMessage) (now : Time) (t : Trade)
    → normalize d w now ≡ ok t
    → IsCoinbaseTrade d now w t
unfolding normalize
normalize-IsCoinbaseTrade d w now t h =
    let (u0, named, h0) = >>=-eq-ok (require (not (w.product_id == [])) missing_product_id) _ h in
    let (side, sided, h1) = >>=-eq-ok (taker_side w.side) _ h0 in
    let (price, priced, h2) = >>=-eq-ok (wrap_error bad_price (parse_fixed w.price (pos 8))) _ h1 in
    let (u1, above, h3) = >>=-eq-ok (require (ltb_ℤ (pos 0) price) non_positive_price) _ h2 in
    let (size, sized, h4) = >>=-eq-ok (wrap_error bad_size (parse_fixed w.size (pos 8))) _ h3 in
    let (u2, over, h5) = >>=-eq-ok (require (ltb_ℤ (pos 0) size) non_positive_size) _ h4 in
    let (ts, timed, h6) = >>=-eq-ok (or_fail bad_time (d.time w.time)) _ h5 in
    subst (IsCoinbaseTrade d now w) (ok_inj h6) (
      record {
        venue_named = refl;
        symbol_named = refl;
        symbol_set = set_of_not w.product_id (require-eq-ok _ missing_product_id named);
        price_read = Read-at_8 w.price price (wrap_error-eq-ok bad_price _ priced);
        price_positive = positive price (require-eq-ok _ non_positive_price above);
        size_read = Read-at_8 w.size size (wrap_error-eq-ok bad_size _ sized);
        size_positive = positive size (require-eq-ok _ non_positive_size over);
        received = refl;
      },
      taker_side-name w.side side sided,
      refl,
      or_fail-eq-ok bad_time (d.time w.time) timed,
    )

-- A message that parses gives at most one trade, and gives one only if it is a match: of the venue,
-- with the message's symbol and identifier, the side opposite to the maker's, the time of receipt,
-- and a positive price and size that are exactly the numbers that the message spells.
pub parse_message-IsCoinbaseTrade :
    (d : Decoder) (raw : Bytes) (now : Time) (ts : List Trade)
    → parse_message d raw now ≡ ok ts
    → (ts ≡ [])
      ⊎ ((m : WireMessage) × (t : Trade) × (d.message raw ≡ some m)
          × (m.kind ≡ codes "match")
          × (ts ≡ one t)
          × IsCoinbaseTrade d now m t)
unfolding parse_message
parse_message-IsCoinbaseTrade d raw now ts h =
    let (m, read, h0) = >>=-eq-ok (or_fail bad_json (d.message raw)) _ h in
    elim (Bool-cases (m.kind == codes "match")) [
      | inl e ↦
          let (t, normal, h1) = >>=-eq-ok (normalize d m now) _ (rw e at h0) in
          inr (
            m,
            t,
            or_fail-eq-ok bad_json (d.message raw) read,
            (bytes_beq_iff m.kind (codes "match")).0 e,
            sym (ok_inj h1),
            normalize-IsCoinbaseTrade d m now t normal,
          )
      | inr e ↦ elim (Bool-cases (is_skipped m.kind)) [
        | inl f ↦ inl (sym (ok_inj (rw (e, f) at h0)))
        | inr f ↦ elim (Bool-cases (m.kind == codes "error")) [
          | inl g ↦ absurd (err_not_ok (rw (e, f, g) at h0))
          | inr g ↦ absurd (err_not_ok (rw (e, f, g) at h0))
        ]
      ]
    ]
