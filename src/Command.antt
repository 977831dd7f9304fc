-- ===== src/Command.antt =====
-- cmd/tickstore/main.go: the calls that the command makes, in order, and whether it exits with an
-- error. What runs in a goroutine of its own is one call.
pub mod Launch
pub mod Main
pub mod Returns
pub mod Prepared
pub mod Order
pub mod Printer
pub mod Throttle
mod Examples
use mathlib.Core.Option
use tickstore.Prelude.{
  pos, not, ◌&&◌, ◌||◌, Result, ok, err, Bool, Bytes, List, Option, [], bytes_eq, codes, false,
  if◌then◌else◌, int_eq, map, nat_eq, none, some, true, ◌++◌, ◌==◌, ◌∷◌,
}
use tickstore.Config.{Config, LoadError, Venue}
use tickstore.Venue.Feed.{Ports}
use tickstore.Sink as Sink

-- The connectors' packages.
pub data Exchange : Type 0 where
  coinbase kraken okx : Exchange

pub data Feed : Type 0 where
  trades books : Feed

-- Where a feed's rows go.
pub data Destination : Type 0 where
  printed batched published : Destination

pub record Handler : Type 0 where
  pub destination : Destination
  pub has_registry : Bool

pub record BookRunner : Type 0 where
  pub exchange : Exchange
  pub symbols : List Bytes
  pub ports : Ports

pub record TradeRunner : Type 0 where
  pub exchange : Exchange
  pub symbols : List Bytes

pub data Call : Type 0 where
  load_config open_queue open_clickhouse migrate backfill_rollups close_clickhouse close_queue :
      Call
  consume close_batcher : Feed → Call
  start_batcher : Feed → Sink.Config → Call
  serve_metrics serve_dashboard : Bytes → Call
  run_trades : Handler → TradeRunner → Call
  run_books : BookRunner → Call

-- The calls so far, and a value unless the command exits with an error.
abbrev pub Startup : Type 0 → Type 0
Startup A = List Call × Option A

infixl 5 ◌>>=◌ ◌>>◌
abbrev pub ◌>>=◌ : {A B : Type 0} → Startup A → (A → Startup B) → Startup B
(calls, none) >>= f = (calls, none)
(calls, some a) >>= f = let rest = f a in (calls ++ rest.0, rest.1)

abbrev pub ◌>>◌ : {A B : Type 0} → Startup A → Startup B → Startup B
m >> k = m >>= λ _. k

abbrev pub pure : {A : Type 0} → A → Startup A
pure a = ([], some a)

abbrev pub exit : {A : Type 0} → Startup A
exit = ([], none)

abbrev pub call : Call → Startup (Unit {0})
call c = (c ∷ [], some tt)

abbrev pub when : Bool → Startup (Unit {0}) → Startup (Unit {0})
when true m = m
when false m = pure tt

abbrev pub exit_unless : Bool → Startup (Unit {0})
exit_unless true = pure tt
exit_unless false = exit

abbrev pub or_exit : {A : Type 0} → Option A → Startup A
or_exit none = exit
or_exit (some a) = pure a

-- What the calls of the libraries return: whether the queue and the database open, and whether the
-- migration succeeds.
pub record Outside : Type 0 where
  pub queue_opens : Bool
  pub clickhouse_opens : Bool
  pub migrates : Bool

unfoldable pub exchange_of : Bytes → Option Exchange
exchange_of name =
    if name == codes "coinbase"
    then some coinbase
    else if name == codes "kraken"
    then some kraken
    else if name == codes "okx"
    then some okx
    else none

unfoldable pub trade_connector : Bytes → List Bytes → Option TradeRunner
unfolding exchange_of
trade_connector name symbols =
    Option.map (λ e. record { exchange = e; symbols = symbols }) (exchange_of name)

-- The observer is set exactly where there is a registry.
unfoldable pub book_connector : Bytes → List Bytes → Bool → Bool → Option BookRunner
unfolding exchange_of
book_connector name symbols has_sink has_registry =
    Option.map
      (λ e. record {
        exchange = e;
        symbols = symbols;
        ports = record { has_sink = has_sink; has_observer = has_registry };
      })
      (exchange_of name)

-- A handler, whether the database is open, and the flush of the trades where there is one.
pub record Built : Type 0 where
  pub handler : Handler
  pub has_clickhouse : Bool
  pub on_shutdown : List Call

module _ (o : Outside) where
  pub open_database : Startup (Unit {0})
  open_database = do
    call open_clickhouse
    exit_unless o.clickhouse_opens
    call migrate
    if o.migrates then pure tt else (call close_clickhouse >> exit)

  unfoldable pub build_handler : Bytes → Sink.Config → Bool → Bool → Startup Built
  unfolding open_database
  build_handler addr config has_registry has_bus =
      if addr == []
      then pure (record {
        handler = record { destination = printed; has_registry = false };
        has_clickhouse = false;
        on_shutdown = [];
      })
      else do
        open_database
        call backfill_rollups
        call (if has_bus then consume trades else start_batcher trades config)
        pure (record {
          handler = record {
            destination = if has_bus then published else batched;
            has_registry = has_registry;
          };
          has_clickhouse = true;
          on_shutdown = if has_bus then [] else close_batcher trades ∷ [];
        })
