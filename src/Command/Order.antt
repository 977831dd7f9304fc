-- ===== src/Command/Order.antt =====
-- The order of the calls of `runConfig` in cmd/tickstore/main.go.
use tickstore.Prelude.{
  append_assoc, All, Bool, List, Result, [], ap, bytes_eq, err, false, if◌then◌else◌, inl, inr, map,
  none, not, ok, refl, some, subst, true, ◌&&◌, ◌++◌, ◌==◌, ◌||◌, ◌∙◌, ◌∷◌, ◌≡◌, ◌⊎◌,
}
use tickstore.Config.{Config, LoadError, Venue}
use tickstore.Venue.Trades.{AllPairs}
use tickstore.Command.Returns.{IsStart, Returns}
use tickstore.Command.Prepared.{
  IsReady, IsTradeRunner, IsWired, built_of, persisted_of, prepare-IsReady,
}
use tickstore.Command.{
  BookRunner, Built, Call, Handler, Outside, Startup, TradeRunner, batched, books, call,
  close_batcher, close_clickhouse, close_queue, exchange_of, load_config, printed, published,
  run_books, run_trades, trades, ◌>>=◌, ◌>>◌,
}
use tickstore.Command.Launch.{
  BookSink, Ready, prepare, run_all, run_config, run_ready, shut_down, wants_queue, wants_registry,
}

-- What the configuration asks for.
abbrev pub has_database : Config → Bool
has_database c = not (c.click_house.addr == [])

abbrev pub handler_of : Config → Handler
handler_of c = record {
  destination =
      if has_database c then (if c.queue.enabled then published else batched) else printed;
  has_registry = wants_registry c;
}

abbrev pub wants_book_sink : Config → Bool
wants_book_sink c = c.persist_books && has_database c

-- The trades are flushed before the books, and the database is closed last.
abbrev pub closing : Config → List Call
closing c =
    if has_database c
    then if c.queue.enabled
      then close_queue ∷ close_clickhouse ∷ []
      else close_batcher trades
        ∷ (if c.persist_books
            then close_batcher books ∷ close_clickhouse ∷ []
            else close_clickhouse ∷ [])
    else []

abbrev pub IsBookRunner : Config → Venue → BookRunner → Type 0
IsBookRunner c v r =
    (exchange_of v.name ≡ some r.exchange)
    × (r.symbols ≡ v.symbols)
    × (r.ports ≡ record { has_sink = wants_book_sink c; has_observer = wants_registry c })

-- Book connectors are run where the books are stored or shown.
abbrev pub AreBookRunners : Config → List BookRunner → Type 0
AreBookRunners c rs =
    if wants_book_sink c || wants_registry c then AllPairs (IsBookRunner c) c.venues rs else rs ≡ []

-- A command that ran its connectors, in the order of its calls.
pub record IsLaunched (c : Config) (calls : List Call) : Type 0 where
  pub start : List Call
  pub conns : List TradeRunner
  pub book_conns : List BookRunner
  pub starts : All IsStart start
  pub each_venue : AllPairs IsTradeRunner c.venues conns
  pub each_book : AreBookRunners c book_conns
  pub order :
      calls
      ≡ start ++ (map (run_trades (handler_of c)) conns ++ (map run_books book_conns ++ closing c))

-- The values at each setting: no database (`a`), the queue enabled (`q`), books kept (`p`).
handler-built_of :
    (a q d : Bool)
    → (built_of a (not a && d) (q && not a)).handler ≡ record {
      destination = if not a then (if q then published else batched) else printed;
      has_registry = not a && d;
    }
handler-built_of true q d = refl
handler-built_of false true d = refl
handler-built_of false false d = refl

shut_down-built_of :
    (a q p r : Bool)
    → let bus = q && not a in
      let built = built_of a r bus in
      shut_down built (persisted_of p built.has_clickhouse bus) bus ≡ (
        if not a
        then if q
          then close_queue ∷ close_clickhouse ∷ []
          else close_batcher trades
            ∷ (if p then close_batcher books ∷ close_clickhouse ∷ [] else close_clickhouse ∷ [])
        else [])
unfolding shut_down
shut_down-built_of true true true r = refl
shut_down-built_of true true false r = refl
shut_down-built_of true false true r = refl
shut_down-built_of true false false r = refl
shut_down-built_of false true true r = refl
shut_down-built_of false true false r = refl
shut_down-built_of false false true r = refl
shut_down-built_of false false false r = refl

persisted_of-wants :
    (a q p r : Bool)
    → (persisted_of p (built_of a r (q && not a)).has_clickhouse (q && not a)).0 ≡ (p && not a)
persisted_of-wants true q true r = refl
persisted_of-wants true q false r = refl
persisted_of-wants false q true r = refl
persisted_of-wants false q false r = refl

module _ (c : Config) (ready : Ready) (h : IsReady c ready) where
  ready-persisted :
      ready.persisted
      ≡ persisted_of c.persist_books
          (built_of (c.click_house.addr == []) (wants_registry c) (wants_queue c)).has_clickhouse
          (wants_queue c)
  ready-persisted =
      h.persisted
      ∙ ap (λ (b : Built). persisted_of c.persist_books b.has_clickhouse (wants_queue c)) h.built

  ready-closing : shut_down ready.built ready.persisted (wants_queue c) ≡ closing c
  ready-closing =
      ap (λ b. shut_down b ready.persisted (wants_queue c)) h.built
      ∙ ap
          (λ p.
            shut_down (built_of (c.click_house.addr == []) (wants_registry c) (wants_queue c)) p
              (wants_queue c))
          ready-persisted
      ∙ shut_down-built_of (c.click_house.addr == []) c.queue.enabled c.persist_books
          (wants_registry c)

  ready-handler : ready.built.handler ≡ handler_of c
  ready-handler =
      ap (λ (b : Built). b.handler) h.built
      ∙ handler-built_of (c.click_house.addr == []) c.queue.enabled (not (c.dashboard.addr == []))

  ready-wants : ready.persisted.0 ≡ wants_book_sink c
  ready-wants =
      ap (λ (p : BookSink). p.0) ready-persisted
      ∙ persisted_of-wants (c.click_house.addr == []) c.queue.enabled c.persist_books
          (wants_registry c)

  ready-AreBookRunners : AreBookRunners c ready.book_conns
  ready-AreBookRunners =
      subst
        (λ sink.
          if sink || wants_registry c
          then AllPairs (IsWired sink (wants_registry c)) c.venues ready.book_conns
          else ready.book_conns ≡ [])
        ready-wants h.book_conns

-- What follows the start.
ready-order :
    (c : Config) (ready : Ready)
    → IsReady c ready
    → run_all ready.built.handler ready.conns ready.book_conns
        ++ shut_down ready.built ready.persisted (wants_queue c)
      ≡ map (run_trades (handler_of c)) ready.conns ++ (map run_books ready.book_conns ++ closing c)
unfolding run_all
ready-order c ready h =
    let books_run = map run_books ready.book_conns in
    append_assoc (map (run_trades ready.built.handler) ready.conns) books_run
      (shut_down ready.built ready.persisted (wants_queue c))
    ∙ ap
        (λ x.
          map (run_trades x) ready.conns
          ++ (books_run ++ shut_down ready.built ready.persisted (wants_queue c)))
        (ready-handler c ready h)
    ∙ ap (λ l. map (run_trades (handler_of c)) ready.conns ++ (books_run ++ l))
        (ready-closing c ready h)

-- How `runConfig` may end.
abbrev pub Ends : Result LoadError Config → Startup (Unit {0}) → Type 0
Ends loaded out =
    ((out.1 ≡ none) × All IsStart out.0)
    ⊎ ((c : Config) × (loaded ≡ ok c) × (out.1 ≡ some tt) × IsLaunched c out.0)

run_ready-Ends :
    (c : Config) (m : Startup Ready)
    → Returns (IsReady c) m
    → Ends (ok c) (call load_config >> (m >>= run_ready c))
unfolding run_ready run_all
run_ready-Ends c (calls, none) p = inl (refl, (tt, p.starts))
run_ready-Ends c (calls, some ready) p =
    let h = p.value ready refl in
    inr (
      c,
      refl,
      refl,
      record {
        start = load_config ∷ calls;
        conns = ready.conns;
        book_conns = ready.book_conns;
        starts = (tt, p.starts);
        each_venue = h.conns;
        each_book = ready-AreBookRunners c ready h;
        order = ap (λ l. load_config ∷ (calls ++ l)) (ready-order c ready h);
      },
    )

-- Either `runConfig` exits with an error, and then it has run no connector; or the configuration
-- loads and it ends without one, and then its calls are, in this order: the start; the run of one
-- trade connector for each venue listed, with the handler that the configuration asks for; the run
-- of one book connector for each venue where the books are stored or shown, with a sink and an observer
-- exactly as asked for; and the flush of the trades, that of the books, and the end of the connections.
pub run_config-IsLaunched :
    (loaded : Result LoadError Config) (o : Outside) → Ends loaded (run_config loaded o)
unfolding run_config
run_config-IsLaunched (err e) o = inl (refl, (tt, tt))
run_config-IsLaunched (ok c) o = run_ready-Ends c (prepare c o) (prepare-IsReady c o)
