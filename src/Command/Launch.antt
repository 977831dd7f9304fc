-- ===== src/Command/Launch.antt =====
-- cmd/tickstore/main.go: `runConfig`, which starts what the configuration lists, runs it and ends it.
use tickstore.Prelude.{
  pos, not, ◌&&◌, ◌||◌, Result, ok, err, Bool, Bytes, List, [], bytes_eq, false, if◌then◌else◌,
  int_eq, map, nat_eq, some, true, ◌++◌, ◌==◌, ◌∷◌,
}
use tickstore.Config.{Config, LoadError, Venue}
use tickstore.Sink as Sink
use tickstore.Command.{
  BookRunner, Built, Call, Handler, Outside, Startup, TradeRunner, book_connector, books,
  build_handler, call, close_batcher, close_clickhouse, close_queue, consume, exit, exit_unless,
  load_config, open_queue, or_exit, pure, run_books, run_trades, serve_dashboard, serve_metrics,
  start_batcher, trade_connector, when, ◌>>=◌, ◌>>◌,
}

abbrev pub sink_config : Config → Sink.Config
sink_config c = record {
  max_rows = c.sink.max_rows;
  max_delay = c.sink.max_delay;
  buffer_size = c.sink.buffer;
  retry_min = pos 0;
  retry_max = pos 0;
}

abbrev is_empty : Bytes → Bool
is_empty s = s == []

-- A registry is made where the dashboard and the database are configured.
abbrev pub wants_registry : Config → Bool
wants_registry c = not (is_empty c.click_house.addr) && not (is_empty c.dashboard.addr)

abbrev pub wants_queue : Config → Bool
wants_queue c = c.queue.enabled && not (is_empty c.click_house.addr)

-- Whether there is a sink for the books, and its flush.
abbrev pub BookSink : Type 0
BookSink = Bool × List Call

unfoldable pub persist_books : Config → Bool → Bool → Startup BookSink
persist_books c has_clickhouse has_bus =
    if c.persist_books && has_clickhouse
    then if has_bus
      then (call (consume books) >> pure (true, []))
      else (call (start_batcher books (sink_config c)) >> pure (true, close_batcher books ∷ []))
    else pure (false, [])

-- Every connector is built before one is run.
unfoldable pub trade_connectors : List Venue → Startup (List TradeRunner)
unfolding trade_connector
trade_connectors [] = pure []
trade_connectors (v ∷ vs) = do
  conn ← or_exit (trade_connector v.name v.symbols)
  conns ← trade_connectors vs
  pure (conn ∷ conns)

unfoldable pub book_connectors : Bool → Bool → List Venue → Startup (List BookRunner)
unfolding book_connector
book_connectors has_sink has_registry [] = pure []
book_connectors has_sink has_registry (v ∷ vs) = do
  conn ← or_exit (book_connector v.name v.symbols has_sink has_registry)
  conns ← book_connectors has_sink has_registry vs
  pure (conn ∷ conns)

unfoldable pub run_all : Handler → List TradeRunner → List BookRunner → List Call
run_all handler conns book_conns = map (run_trades handler) conns ++ map run_books book_conns

-- What follows once every connector has stopped.
unfoldable pub shut_down : Built → BookSink → Bool → List Call
shut_down built persisted has_bus =
    built.on_shutdown
    ++ (persisted.1
        ++ ((if has_bus then close_queue ∷ [] else [])
            ++ (if built.has_clickhouse then close_clickhouse ∷ [] else [])))

-- What stands when the first connector is run.
pub record Ready : Type 0 where
  pub built : Built
  pub persisted : BookSink
  pub conns : List TradeRunner
  pub book_conns : List BookRunner

unfoldable pub prepare : Config → Outside → Startup Ready
unfolding build_handler persist_books trade_connectors book_connectors
prepare c o = do
  let has_registry = wants_registry c
  let has_bus = wants_queue c
  when has_bus (call open_queue >> exit_unless o.queue_opens)
  built ← build_handler o c.click_house.addr (sink_config c) has_registry has_bus
  persisted ← persist_books c built.has_clickhouse has_bus
  call (serve_metrics c.metrics.addr)
  when (built.has_clickhouse && has_registry) (call (serve_dashboard c.dashboard.addr))
  conns ← trade_connectors c.venues
  book_conns ←
      if persisted.0 || has_registry
      then book_connectors persisted.0 has_registry c.venues
      else pure []
  pure (record { built = built; persisted = persisted; conns = conns; book_conns = book_conns })

unfoldable pub run_ready : Config → Ready → Startup (Unit {0})
unfolding run_all shut_down
run_ready c ready = do
  (run_all ready.built.handler ready.conns ready.book_conns, some tt)
  (shut_down ready.built ready.persisted (wants_queue c), some tt)

-- `loaded` is what `config.Load` returns.
unfoldable pub run_config : Result LoadError Config → Outside → Startup (Unit {0})
unfolding prepare run_ready
run_config (err e) o = call load_config >> exit
run_config (ok c) o = do call load_config; ready ← prepare c o; run_ready c ready
