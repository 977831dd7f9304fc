-- ===== src/Command/Main.antt =====
-- cmd/tickstore/main.go: `main` and its three modes.
use tickstore.Prelude.{
  Bool, Bytes, List, Result, [], bytes_eq, false, if◌then◌else◌, pos, some, true, ◌==◌,
}
use tickstore.Config.{Config, LoadError}
use tickstore.Sink as Sink
use tickstore.Sink.ClickHouse.{split}
use tickstore.Command.{
  Outside, Startup, build_handler, call, close_clickhouse, exchange_of, exit_unless, or_exit,
  run_books, run_trades, trade_connector, when, ◌>>=◌, ◌>>◌,
}
use tickstore.Command.Launch.{run_config}

-- The flags. `succeeds` below tells whether the connector's `Run` returns no error, or an error
-- behind the signal to stop.
pub record Flags : Type 0 where
  pub symbols : Bytes
  pub clickhouse_addr : Bytes
  pub book_mode : Bool
  pub venue_name : Bytes
  pub config_path : Bytes

abbrev no_config : Sink.Config
no_config = record {
  max_rows = pos 0;
  max_delay = pos 0;
  buffer_size = pos 0;
  retry_min = pos 0;
  retry_max = pos 0;
}

-- The book's observer is the printer.
unfoldable pub run_book_mode : Bytes → List Bytes → Bool → Startup (Unit {0})
unfolding exchange_of
run_book_mode venue_name symbols succeeds = do
  exchange ← or_exit (exchange_of venue_name)
  call (
      run_books (record {
        exchange = exchange;
        symbols = symbols;
        ports = record { has_sink = false; has_observer = true };
      }))
  exit_unless succeeds

unfoldable pub run_single : Flags → List Bytes → Outside → Bool → Startup (Unit {0})
unfolding trade_connector build_handler
run_single flags symbols o succeeds = do
  conn ← or_exit (trade_connector flags.venue_name symbols)
  built ← build_handler o flags.clickhouse_addr no_config false false
  call (run_trades built.handler conn)
  (built.on_shutdown, some tt)
  when built.has_clickhouse (call close_clickhouse)
  exit_unless succeeds

-- `load` is `config.Load`.
unfoldable pub main :
    Flags → (Bytes → Result LoadError Config) → Outside → Bool → Startup (Unit {0})
unfolding run_config run_book_mode run_single
main flags load o succeeds =
    let symbols = split b',' flags.symbols in
    if flags.config_path == []
    then if flags.book_mode
      then run_book_mode flags.venue_name symbols succeeds
      else run_single flags symbols o succeeds
    else run_config (load flags.config_path) o
