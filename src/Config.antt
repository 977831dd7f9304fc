-- ===== src/Config.antt =====
-- internal/config/config.go: loading the configuration, and the validation of its venues.
pub mod Valid
pub mod Loaded
mod Examples
use tickstore.Prelude.{
  or_fail, wrap_error, ◌>>=◌, ◌>>◌, ℤ, Assoc, Bool, Bytes, List, Option, Result, [], bytes_eq, err,
  false, if◌then◌else◌, insert, int_eq, lookup, nat_eq, none, ok, some, true, ℕ, ◌+◌, ◌==◌, ◌∷◌,
}

pub record Venue : Type 0 where
  pub name : Bytes
  pub symbols : List Bytes

pub data ConfigError : Type 0 where
  no_venues : ConfigError
  no_name : ℕ → ConfigError
  listed_twice no_symbols : Bytes → ConfigError

abbrev pub was_seen : Option Bool → Bool
was_seen none = false
was_seen (some b) = b

abbrev pub is_nil {ℓ} : {A : Type ℓ} → List A → Bool
is_nil [] = true
is_nil (x ∷ xs) = false

-- The loop: `i` counts the venues, `seen` holds the names so far.
unfoldable pub check_venues : ℕ → Assoc Bytes Bool → List Venue → Result ConfigError (Unit {0})
check_venues i seen [] = ok tt
check_venues i seen (v ∷ vs) =
    if v.name == []
    then err (no_name i)
    else if was_seen (lookup v.name seen)
    then err (listed_twice v.name)
    else if is_nil v.symbols
    then err (no_symbols v.name)
    else check_venues (i + 1) (insert v.name true seen) vs

unfoldable pub validate : List Venue → Result ConfigError (Unit {0})
unfolding check_venues
validate [] = err no_venues
validate (v ∷ vs) = check_venues 0 [] (v ∷ vs)

-- The sections of the file; a `Duration` is in nanoseconds.
pub record ClickHouse : Type 0 where
  pub addr : Bytes
  pub database : Bytes
  pub username : Bytes
  pub password : Bytes

pub record Sink : Type 0 where
  pub max_rows : ℤ
  pub max_delay : ℤ
  pub buffer : ℤ

pub record Queue : Type 0 where
  pub enabled : Bool
  pub url : Bytes
  pub stream : Bytes

pub record Metrics : Type 0 where
  pub addr : Bytes

pub record Dashboard : Type 0 where
  pub addr : Bytes

pub record Config : Type 0 where
  pub click_house : ClickHouse
  pub sink : Sink
  pub queue : Queue
  pub metrics : Metrics
  pub dashboard : Dashboard
  pub venues : List Venue
  pub persist_books : Bool

pub data LoadError : Type 0 where
  unreadable unparsable : LoadError
  invalid : ConfigError → LoadError

-- `decode` is the YAML node's `Decode` into a string, `parse_duration` is `time.ParseDuration`.
unfoldable pub unmarshal_duration :
    {N : Type 0} → (N → Option Bytes) → (Bytes → Option ℤ) → N → Option ℤ
unmarshal_duration decode parse_duration node = elim (decode node) [
  | none ↦ none
  | some s ↦ parse_duration s
]

-- The file system, the environment and the YAML library are parameters.
module _ (read : Bytes → Option Bytes) (expand_env : Bytes → Bytes)
    (unmarshal : Bytes → Option Config) where
  unfoldable pub load : Bytes → Result LoadError Config
  unfolding validate
  load path = do
    text ← or_fail unreadable (read path)
    c ← or_fail unparsable (unmarshal (expand_env text))
    wrap_error invalid (validate c.venues)
    ok c
