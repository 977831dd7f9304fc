-- ===== src/Venue/Handed/Parsers.antt =====
-- Lemmas about the trades that the parsers of internal/venue return.
use tickstore.Prelude.{
  >>=-eq-ok, All, Bool-cases, Bytes, List, Result, [], bytes_eq, codes, err_not_ok, inl, inr,
  int_eq, nat_eq, not, ok, ok_inj, or_fail, subst, sym, ◌==◌, ◌||◌, ◌∷◌, ◌≡◌,
}
use tickstore.Norm.{Trade}
use tickstore.Venue.Trades.{AllPairs}
use tickstore.Venue.Handed.{AllSane, IsSane, IsTrade-IsSane}
use tickstore.Venue.Kraken
use tickstore.Venue.Kraken.Normalized.{IsKrakenTrade, normalize_all-IsKrakenTrade}
use tickstore.Venue.Okx
use tickstore.Venue.Okx.Normalized.{IsOkxTrade, normalize_all-IsOkxTrade}
use tickstore.Venue.Coinbase
use tickstore.Venue.Coinbase.Normalized.{parse_message-IsCoinbaseTrade}

-- From the pairs of rows and trades.
AllPairs-All {ℓ} :
    {A B : Type ℓ} (R : A → B → Type 0) (P : B → Type 0)
    → ((a : A) (b : B) → R a b → P b)
    → (xs : List A) (ys : List B) → AllPairs R xs ys
    → All P ys
AllPairs-All R P step [] [] h = tt
AllPairs-All R P step (x ∷ xs) (y ∷ ys) h = (step x y h.0, AllPairs-All R P step xs ys h.1)
AllPairs-All R P step [] (y ∷ ys) h = absurd h
AllPairs-All R P step (x ∷ xs) [] h = absurd h

none-IsSane :
    {E : Type 0} (venue : Bytes) (ts : List Trade)
    → ◌≡◌ {A = Result E (List Trade)} (ok []) (ok ts)
    → All (IsSane venue) ts
none-IsSane venue ts h = subst (All (IsSane venue)) (ok_inj h) tt

module _ (d : Kraken.Decoder) where
  kraken_trades-AllSane : AllSane Kraken.name (Kraken.parse_trades d)
  unfolding Kraken.parse_trades
  kraken_trades-AllSane raw now ts h =
      let (rows, read, h0) = >>=-eq-ok (or_fail Kraken.bad_json (d.trades raw)) _ h in
      AllPairs-All (IsKrakenTrade d now) (IsSane Kraken.name) (λ w t k. IsTrade-IsSane k.0) rows ts
        (normalize_all-IsKrakenTrade d rows now ts h0)

  pub kraken-AllSane : AllSane Kraken.name (Kraken.parse_message d)
  unfolding Kraken.parse_message
  kraken-AllSane raw now ts h =
      let (e, read, h0) = >>=-eq-ok (or_fail Kraken.bad_json (d.envelope raw)) _ h in
      elim (Bool-cases (e.method == [])) [
        | inr m ↦ elim (Bool-cases (Kraken.said_no e.success)) [
          | inl n ↦ absurd (err_not_ok (rw (m, n) at h0))
          | inr n ↦ none-IsSane Kraken.name ts (rw (m, n) at h0)
        ]
        | inl m ↦ elim (Bool-cases (e.channel == codes "trade")) [
          | inl c ↦ elim (Bool-cases (e.kind == codes "snapshot")) [
            | inl k ↦ none-IsSane Kraken.name ts (rw (m, c, k) at h0)
            | inr k ↦ kraken_trades-AllSane e.payload now ts (rw (m, c, k) at h0)
          ]
          | inr c ↦ none-IsSane Kraken.name ts (rw (m, c) at h0)
        ]
      ]

module _ (d : Okx.Decoder) where
  okx_trades-AllSane : AllSane Okx.name (Okx.parse_trades d)
  unfolding Okx.parse_trades
  okx_trades-AllSane raw now ts h =
      let (rows, read, h0) = >>=-eq-ok (or_fail Okx.bad_json (d.trades raw)) _ h in
      AllPairs-All (IsOkxTrade now) (IsSane Okx.name) (λ w t k. IsTrade-IsSane k.0) rows ts
        (normalize_all-IsOkxTrade rows now ts h0)

  pub okx-AllSane : AllSane Okx.name (Okx.parse_message d)
  unfolding Okx.parse_message
  okx-AllSane raw now ts h = elim (Bool-cases (raw == codes "pong")) [
    | inl p ↦ none-IsSane Okx.name ts (rw p at h)
    | inr p ↦
        let (e, read, h0) = >>=-eq-ok (or_fail Okx.bad_json (d.envelope raw)) _ (rw p at h) in
        elim (Bool-cases (e.event == codes "error")) [
          | inl m ↦ absurd (err_not_ok (rw m at h0))
          | inr m ↦ elim (Bool-cases (Okx.is_control e.event)) [
            | inl c ↦ none-IsSane Okx.name ts (rw (m, c) at h0)
            | inr c ↦ elim (Bool-cases (not (e.arg.channel == codes "trades") || e.payload == [])) [
              | inl k ↦ none-IsSane Okx.name ts (rw (m, c, k) at h0)
              | inr k ↦ okx_trades-AllSane e.payload now ts (rw (m, c, k) at h0)
            ]
          ]
        ]
  ]

pub coinbase-AllSane : (d : Coinbase.Decoder) → AllSane Coinbase.name (Coinbase.parse_message d)
coinbase-AllSane d raw now ts h = elim (parse_message-IsCoinbaseTrade d raw now ts h) [
  | inl e ↦ subst (All (IsSane Coinbase.name)) (sym e) tt
  | inr (m, t, read, kind, e, k) ↦
      subst (All (IsSane Coinbase.name)) (sym e) (IsTrade-IsSane k.0, tt)
]
