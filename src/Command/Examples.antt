-- ===== src/Command/Examples.antt =====
-- cmd/tickstore/main.go on a concrete configuration and concrete books.
use tickstore.Prelude.{List, [], codes, false, negsuc, ok, pos, refl, true, ◌∷◌, ◌≡◌}
use tickstore.Norm.{Time}
use tickstore.Book.{Book, new}
use tickstore.Config.{Config}
use tickstore.Command.{Outside}
use tickstore.Command.Launch.{run_config}
use tickstore.Command.Order.{Ends, run_config-IsLaunched}
use tickstore.Command.Printer.{round_duration}

half_away : round_duration (negsuc 1499) 1000 ≡ negsuc 1999
unfolding round_duration
half_away = refl

abbrev stored : Config
stored = record {
  click_house = record {
    addr = codes "db:9000";
    database = codes "tickstore";
    username = codes "tickstore";
    password = [];
  };
  sink = record { max_rows = pos 0; max_delay = pos 0; buffer = pos 0 };
  queue = record { enabled = false; url = []; stream = [] };
  metrics = record { addr = [] };
  dashboard = record { addr = codes ":8080" };
  venues = record { name = codes "okx"; symbols = codes "BTC-USDT" ∷ [] } ∷ [];
  persist_books = true;
}

abbrev all_works : Outside
all_works = record { queue_opens = true; clickhouse_opens = true; migrates = true }

run_config-IsLaunched_example : Ends (ok stored) (run_config (ok stored) all_works)
run_config-IsLaunched_example = run_config-IsLaunched (ok stored) all_works

abbrev thrice : List (Book × Time)
thrice =
    (new (codes "okx") (codes "BTC-USDT"), pos 0)
    ∷ (new (codes "okx") (codes "BTC-USDT"), pos 5)
    ∷ (new (codes "okx") (codes "BTC-USDT"), pos 2_000_000_000)
    ∷ []
