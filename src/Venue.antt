-- ===== src/Venue.antt =====
-- internal/venue: what the connectors share, and below it one module for each exchange.
pub mod Reconnect
pub mod Feed
pub mod Connection
pub mod Kraken
pub mod Okx
pub mod Coinbase
pub mod InStep
pub mod Published
pub mod Everywhere
pub mod Handed
pub mod AllVenues
pub mod AllBooks
pub mod Reading
pub mod Sessions
mod Examples
mod BookExamples
pub mod Trades
