-- ===== src/Config/Examples.antt =====
-- internal/config/config.go on a file with one venue.
use tickstore.Prelude.{Bytes, Option, [], codes, false, ok, pos, some, true, ◌↔◌, ◌∷◌, ◌≡◌, ◌≢◌}
use tickstore.Config.{Config, load}
use tickstore.Config.Valid.{IsValid}
use tickstore.Config.Loaded.{load-ok}

abbrev one_venue : Config
one_venue = record {
  click_house = record { addr = []; database = []; username = []; password = [] };
  sink = record { max_rows = pos 0; max_delay = pos 0; buffer = pos 0 };
  queue = record { enabled = false; url = []; stream = [] };
  metrics = record { addr = [] };
  dashboard = record { addr = [] };
  venues = record { name = codes "okx"; symbols = codes "BTC" ∷ [] } ∷ [];
  persist_books = true;
}

-- The file is there, no variable is expanded, and its text parses as the configuration above.
abbrev read : Bytes → Option Bytes
read path = some path

abbrev unmarshal : Bytes → Option Config
unmarshal text = some one_venue

load-ok_example : (load read (λ text. text) unmarshal [] ≡ ok one_venue) ↔ (
    (text : Bytes) × (read [] ≡ some text)
    × (unmarshal text ≡ some one_venue)
    × (one_venue.venues ≢ [])
    × IsValid one_venue.venues)
load-ok_example = load-ok read (λ text. text) unmarshal [] one_venue
