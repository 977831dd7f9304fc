-- ===== src/Lib.antt =====
-- tickstore: trades and order books of crypto exchanges, normalised, kept in memory and stored.
--
-- The program runs one connector for each exchange and feed. A connector reads frames from a
-- WebSocket, parses them into the types of internal/norm and hands trades to a handler; a book
-- connector keeps an order book of internal/book for each symbol, tells an observer (the registry of
-- internal/live, which the dashboard reads) about every change, and hands each level change to a
-- sink. Sinks put rows into a queue (internal/queue), whose consumers insert them, or into a batcher
-- (internal/sink), which inserts them in batches.
--
-- Where the code is modelled:
--   Norm          internal/norm: the market data types (types.go, book.go)
--   Norm/Fixed    internal/norm/fixed.go: ParseFixed is parse_fixed, FormatFixed is format_fixed
--   Norm/Decimal  the numerals of strconv and fmt that the program prints and reads
--   Book          internal/book/book.go: Apply, ApplySnapshot, Trim, buffer, applyDelta
--   Book/Views    internal/book/views.go: TopOfBook and Depth
--   Venue/Feed    internal/venue/book.go (EmitSnapshot) and the read loop that the trade feeds share
--   Venue/Reconnect  internal/venue/reconnect.go: RunWithReconnect is keep_alive
--   Venue/Connection  the part that all connectors of internal/venue share: session dials, subscribes
--                 and reads, pinger is OKX's pinger, run is Run; Connector below each venue has its
--                 URL, its limit and its subscriptions for trades (run_trades) and for books
--                 (run_books, run_level2)
--   Venue/Kraken, Venue/Okx, Venue/Coinbase  the parsers and read loops of the trade feeds, and in
--                 Books below each of them the book feed, whose session is in BookFeed for Kraken
--                 and OKX: applyBook is apply_frame in Books and apply_book in BookFeed (Coinbase:
--                 dispatch), applyChanges is apply_changes, the loop is session
--   Venue/Kraken/Checksum  internal/venue/kraken/checksum.go, with the CRC-32 of hash/crc32
--   Live          internal/live/registry.go, and Live/Quotes its Quotes, Depth and AllDepth
--   Sink          internal/sink/batcher.go: run, flush, insertWithRetry and withDefaults
--   Sink/Service  the same file's batcher with its channel: Add is accept or refuses, Close is close_stop
--                 and close, and run is the steps receives, ticks, begins_drain and finishes
--   Sink/ClickHouse  internal/sink/clickhouse.go: Migrate, stripLineComments, the Insert methods; in
--                 Sink/ClickHouse/Rollup OpenClickHouse and backfillRollups
--   Sink/Stats    internal/sink/stats.go: TableStats and RecentTrades, and in Sink/Stats/History the
--                 three series of the charts
--   Dashboard     internal/dashboard/server.go: the handlers; in Dashboard/Range bucketFor and history,
--                 in Dashboard/Stream the push channel
--   Queue         internal/queue/queue.go: Open is open_bus, Close close_bus, Publisher.Add publish_all,
--                 Consume consume
--   Config        internal/config/config.go: Load and validate
--   Command       cmd/tickstore/main.go: the connectors and buildHandler, in Command/Launch runConfig, in
--                 Command/Main main, in Command/Printer the handlers of trades and books
-- Every other module holds proofs, with what they are stated against, and is named for what it proves.
--
-- How the model corresponds to the code:
--   * A struct that the code mutates is a record that the operations take and return. The calls that
--     an operation makes (of a sink, an observer, the metrics) are a list of effects, in order.
--   * An error is a value of a data type with one constructor for each place where one is made. Its
--     text is left out. A panic is `none`, or an error of its own (index_panic).
--   * int64 and uint64 are integers of ℤ and ℕ, folded back by wrap64 and % 2 ^ 64 where the code can
--     leave the range. An `int` that the callers keep at zero or above is a natural number.
--   * A Go map is an association list with one entry for each key, in any order. sort.Slice is a
--     stable insertion sort, which is one of the results that it may have.
--   * Input from outside is a parameter: the frames of a session with the times at which they came,
--     the outcome of each insert, the random numbers, the points of cancellation, JSON decoding
--     (a Decoder), the parsing of times and floating point (Floats).
--   * A loop without an end runs over the list of its inputs, and no function needs fuel, except for
--     digits, whose 20 steps are as many as a uint64 has digits. Where goroutines share a channel
--     (Sink/Service), each communication is a step of a relation, in any order that the code allows.
--   * A session of a connector gets its connection as data (Line): whether it comes up, how many writes
--     succeed, the frames before a read fails or its deadline passes, and what the pinger of OKX, a
--     goroutine of its own, takes meanwhile and behind the session's end. A write of the pinger on a
--     connection that is closed is listed with that connection's session, before the next dial.
--   * The database that the rollups are filled in is a state that each call changes (Server): time goes
--     on between two counts, and others write.
--   * Durations are below 2^62 nanoseconds (146 years), so that doubling a backoff is exact.
--
-- Not modelled: network and database I/O, logging, the HTTP servers of internal/dashboard and
-- internal/metrics and their JSON encoding, what the database computes for a query,
-- and flags and signals in cmd/tickstore/main.go.
pub mod Book
pub mod Command
pub mod Config
pub mod Dashboard
pub mod Live
pub mod Norm
pub mod Prelude
pub mod Queue
pub mod Sink
pub mod Venue
