-- ===== src/Command/Prepared.antt =====
-- Lemmas about the start of `runConfig` in cmd/tickstore/main.go.
use tickstore.Prelude.{
  Bool, Bool-cases, Bytes, List, Option-cases, [], bytes_eq, false, if◌then◌else◌, inl, inr, refl,
  some, some_inj, subst, true, ◌&&◌, ◌==◌, ◌||◌, ◌∷◌, ◌≡◌,
}
use tickstore.Config.{Config, Venue}
use tickstore.Sink as Sink
use tickstore.Venue.Trades.{AllPairs}
use tickstore.Command.Returns.{
  Returns, Returns-bind, Returns-call, Returns-exit, Returns-exit_unless, Returns-or_exit,
  Returns-pure, Returns-then, Returns-when,
}
use tickstore.Command.{
  BookRunner, Built, Outside, TradeRunner, backfill_rollups, batched, book_connector, books,
  build_handler, call, close_batcher, close_clickhouse, consume, exchange_of, exit, migrate,
  open_clickhouse, open_database, open_queue, exit_unless, printed, published, pure,
  serve_dashboard, serve_metrics, start_batcher, trade_connector, trades, ◌>>◌,
}
use tickstore.Command.Launch.{
  BookSink, Ready, book_connectors, persist_books, prepare, sink_config, trade_connectors,
  wants_queue, wants_registry,
}

abbrev pub IsTradeRunner : Venue → TradeRunner → Type 0
IsTradeRunner v r = (exchange_of v.name ≡ some r.exchange) × (r.symbols ≡ v.symbols)

open_database-Returns : (o : Outside) → Returns (λ _. Unit {0}) (open_database o)
unfolding open_database
open_database-Returns o =
    Returns-then (λ _. Unit {0}) (call open_clickhouse) _ (Returns-call open_clickhouse tt)
      (Returns-then (λ _. Unit {0}) _ _ (Returns-exit_unless o.clickhouse_opens)
        (Returns-then (λ _. Unit {0}) (call migrate) _ (Returns-call migrate tt)
          (migrated o.migrates)))
  where
    migrated :
        (b : Bool)
        → Returns (λ _. Unit {0}) (if b then pure tt else (call close_clickhouse >> exit))
    migrated true = Returns-pure (λ _. Unit {0}) tt tt
    migrated false =
        Returns-then (λ _. Unit {0}) _ _ (Returns-call close_clickhouse tt)
          (Returns-exit (λ _. Unit {0}))

-- What `buildHandler` returns where it returns.
abbrev pub built_of : (no_database has_registry has_bus : Bool) → Built
built_of no_database has_registry has_bus =
    if no_database
    then record {
      handler = record { destination = printed; has_registry = false };
      has_clickhouse = false;
      on_shutdown = [];
    }
    else record {
      handler = record {
        destination = if has_bus then published else batched;
        has_registry = has_registry;
      };
      has_clickhouse = true;
      on_shutdown = if has_bus then [] else close_batcher trades ∷ [];
    }

build_handler-Returns :
    (o : Outside) (addr : Bytes) (config : Sink.Config) (has_registry has_bus : Bool)
    → Returns
        (λ b. b ≡ built_of (addr == []) has_registry has_bus)
        (build_handler o addr config has_registry has_bus)
unfolding build_handler
build_handler-Returns o addr config has_registry has_bus = elim (Bool-cases (addr == [])) [
  | inl e ↦ rw e (Returns-pure (λ b. b ≡ _) _ refl)
  | inr e ↦ rw e (
      Returns-then _ _ _ (open_database-Returns o) (
        Returns-then _ (call backfill_rollups) _ (Returns-call backfill_rollups tt)
          (Returns-then _ _ _ (started has_bus) (Returns-pure _ _ refl))))
]
  where
    started :
        (b : Bool)
        → Returns (λ _. Unit {0}) (call (if b then consume trades else start_batcher trades config))
    started true = Returns-call (consume trades) tt
    started false = Returns-call (start_batcher trades config) tt

abbrev pub persisted_of : (persist has_clickhouse has_bus : Bool) → BookSink
persisted_of persist has_clickhouse has_bus =
    if persist && has_clickhouse
    then (true, if has_bus then [] else close_batcher books ∷ [])
    else (false, [])

persist_books-Returns :
    (c : Config) (has_clickhouse has_bus : Bool)
    → Returns
        (λ p. p ≡ persisted_of c.persist_books has_clickhouse has_bus)
        (persist_books c has_clickhouse has_bus)
unfolding persist_books
persist_books-Returns c has_clickhouse has_bus =
    elim (Bool-cases (c.persist_books && has_clickhouse)) [
      | inl e ↦ rw e (kept has_bus)
      | inr e ↦ rw e (Returns-pure _ _ refl)
    ]
  where
    kept :
        (b : Bool)
        → Returns
            (λ (p : BookSink). p ≡ (true, if b then [] else close_batcher books ∷ []))
            (if b
              then (call (consume books) >> pure (true, []))
              else (call (start_batcher books (sink_config c))
                  >> pure (true, close_batcher books ∷ [])))
    kept true = Returns-then _ _ _ (Returns-call (consume books) tt) (Returns-pure _ _ refl)
    kept false =
        Returns-then _ _ _ (Returns-call (start_batcher books (sink_config c)) tt)
          (Returns-pure _ _ refl)

trade_connector-IsTradeRunner :
    (v : Venue) {r : TradeRunner} → trade_connector v.name v.symbols ≡ some r → IsTradeRunner v r
unfolding trade_connector
trade_connector-IsTradeRunner v h = elim (Option-cases (exchange_of v.name)) [
  | inl e ↦ absurd (cc (rw e at h))
  | inr (x, e) ↦ let same = some_inj (rw e at h) in subst (IsTradeRunner v) same (e, refl)
]

trade_connectors-Returns :
    (vs : List Venue) → Returns (AllPairs IsTradeRunner vs) (trade_connectors vs)
unfolding trade_connectors
trade_connectors-Returns [] = Returns-pure _ _ tt
trade_connectors-Returns (v ∷ vs) =
    Returns-bind _ _ _ _ (Returns-or_exit (trade_connector v.name v.symbols)) λ conn e.
      Returns-bind _ _ _ _ (trade_connectors-Returns vs)
        λ conns h. Returns-pure _ _ (trade_connector-IsTradeRunner v e, h)

abbrev pub IsWired : Bool → Bool → Venue → BookRunner → Type 0
IsWired has_sink has_registry v r =
    (exchange_of v.name ≡ some r.exchange)
    × (r.symbols ≡ v.symbols)
    × (r.ports ≡ record { has_sink = has_sink; has_observer = has_registry })

book_connector-IsWired :
    (v : Venue) (has_sink has_registry : Bool) {r : BookRunner}
    → book_connector v.name v.symbols has_sink has_registry ≡ some r
    → IsWired has_sink has_registry v r
unfolding book_connector
book_connector-IsWired v has_sink has_registry h = elim (Option-cases (exchange_of v.name)) [
  | inl e ↦ absurd (cc (rw e at h))
  | inr (x, e) ↦
      let same = some_inj (rw e at h) in
      subst (IsWired has_sink has_registry v) same (e, refl, refl)
]

book_connectors-Returns :
    (has_sink has_registry : Bool) (vs : List Venue)
    → Returns
        (AllPairs (IsWired has_sink has_registry) vs)
        (book_connectors has_sink has_registry vs)
unfolding book_connectors
book_connectors-Returns has_sink has_registry [] = Returns-pure _ _ tt
book_connectors-Returns has_sink has_registry (v ∷ vs) =
    Returns-bind _ _ _ _ (Returns-or_exit (book_connector v.name v.symbols has_sink has_registry))
      λ conn e.
        Returns-bind _ _ _ _ (book_connectors-Returns has_sink has_registry vs)
          λ conns h. Returns-pure _ _ (book_connector-IsWired v has_sink has_registry e, h)

-- What the start has made, where it has not failed.
pub record IsReady (c : Config) (ready : Ready) : Type 0 where
  pub built : ready.built ≡ built_of (c.click_house.addr == []) (wants_registry c) (wants_queue c)
  pub persisted :
      ready.persisted ≡ persisted_of c.persist_books ready.built.has_clickhouse (wants_queue c)
  pub conns : AllPairs IsTradeRunner c.venues ready.conns
  pub book_conns :
      if ready.persisted.0 || wants_registry c
      then AllPairs (IsWired ready.persisted.0 (wants_registry c)) c.venues ready.book_conns
      else ready.book_conns ≡ []

pub prepare-IsReady : (c : Config) (o : Outside) → Returns (IsReady c) (prepare c o)
unfolding prepare
prepare-IsReady c o =
    let bus = wants_queue c in
    let reg = wants_registry c in
    Returns-then _ _ _
      (Returns-when bus (call open_queue >> exit_unless o.queue_opens)
        (Returns-then _ _ _ (Returns-call open_queue tt) (Returns-exit_unless o.queue_opens)))
      (Returns-bind _ _ _ _ (build_handler-Returns o c.click_house.addr (sink_config c) reg bus)
        λ built e.
          Returns-bind _ _ _ _ (persist_books-Returns c built.has_clickhouse bus) λ persisted f.
            Returns-then _ _ _ (Returns-call (serve_metrics c.metrics.addr) tt) (
              Returns-then _ _ _
                (Returns-when (built.has_clickhouse && reg)
                  (call (serve_dashboard c.dashboard.addr))
                  (Returns-call (serve_dashboard c.dashboard.addr) tt))
                (Returns-bind _ _ _ _ (trade_connectors-Returns c.venues) λ conns g.
                  Returns-bind _ _ _ _ (wired persisted.0 reg) λ book_conns h.
                    Returns-pure _ _
                      (record { built = e; persisted = f; conns = g; book_conns = h }))))
  where
    wired :
        (sink reg : Bool)
        → Returns
            (λ rs. if sink || reg then AllPairs (IsWired sink reg) c.venues rs else rs ≡ [])
            (if sink || reg then book_connectors sink reg c.venues else pure [])
    wired true reg = book_connectors-Returns true reg c.venues
    wired false true = book_connectors-Returns false true c.venues
    wired false false = Returns-pure _ _ refl
