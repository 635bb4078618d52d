-- ===== src/Lib.antt =====
-- Cryptomeria: the order books of three exchanges, fed by their WebSocket messages.
--
-- The program (rs/src) runs one client per instrument and exchange. A client connects, subscribes,
-- and hands each message to an in-memory order book, whose best prices, depth and levels it then
-- shows, exports and stores. A filter given on the command line decides which levels enter a book. A
-- client of Bitstamp buffers the diffs that it receives until it has fetched a snapshot over REST.
-- When a connection ends, the client waits by an exponential backoff and connects again.
--
-- Which file models which part:
--   Float, Float/Fixed   the arithmetic of f64 and OrderedFloat, and fixed-point numbers for tests
--   LevelMap             BTreeMap from prices to amounts, and its lookup, order and size
--   Json                 the accessors of serde_json::Value
--   Traits/Filter        LobFilter::should_include of rs/src/traits/mod.rs
--   Traits/Backoff       backoff_delay of rs/src/traits/mod.rs
--   Traits/Book, Traits/Builder
--                        the traits OrderBook and ExchangeClientBuilder of rs/src/traits/mod.rs
--   Logging              rs/src/logging/mod.rs: the level, and the text of a line
--   Book                 OrderBook of rs/src/okx/lob.rs and rs/src/kraken/lob.rs: the observers,
--                        apply_snapshot and apply_update
--   Book/Filters         find_best_price, filter_snapshot_levels and filter_levels of the two
--   Book/Messages        process_msg of the two
--   Book/Display         display and format_side of the three lob.rs
--   Okx/Lob, Kraken/Lob  the price levels of the two files, and the functions of Book at them
--   Okx/Types, Kraken/Types, Bitstamp/Types
--                        the messages of rs/src/okx/types.rs, rs/src/kraken/types.rs and
--                        rs/src/bitstamp/types.rs
--   Okx/Channels, Kraken/Channels
--                        build_subscribe_msg and the two subscriptions of the clients
--   Bitstamp/Channels    the same for rs/src/bitstamp/ws.rs, and the address of its snapshot
--   Okx/Display, Kraken/Display, Bitstamp/Display
--                        what the three types.rs and display_message of the clients show of a message
--   Okx/Observers, Kraken/Observers, Bitstamp/Observers
--                        the trait OrderBook at the books of the three
--   Okx/Builder, Kraken/Builder, Bitstamp/Builder
--                        the trait ExchangeClientBuilder at the clients of the three
--   Bitstamp/Lob         OrderBook of rs/src/bitstamp/lob.rs: apply_order, apply_snapshot, apply_diff
--   Bitstamp/Filters     filter_snapshot, filter_diff and filter_order_entry
--   Bitstamp/Messages    process_msg
--   Bitstamp/Session     the buffer and the snapshot in the read loop of rs/src/bitstamp/ws.rs
--   Migrate              QuestDbMigrator of rs/src/migrate.rs
--   Text                 the methods of str that the command line needs
--   Text/Decimal, Text/Clock
--                        the formatting of numbers, and the times that messages show
--   Instruments          find_fallback_target of rs/src/main.rs
--   Instruments/Names, Instruments/Lists
--                        parse_exchange_override, format_instrument and parse_instruments_list
--   Instruments/Aliases  the table of rs/src/instrument_aliases.rs
--   Instruments/Resolve  resolve_one_instrument, and the loop of main over the arguments
--   Dict                 HashMap, and the gauges by their labels, as lists of entries
--   Status               ClientStatus of rs/src/traits/mod.rs, and how the clients write it
--   Metrics              LobMetrics, and update_lob_metrics and update_depth_metrics of the clients
--   Metrics/Registry     LobMetrics::new of rs/src/traits/mod.rs
--   Metrics/Report       the route /metrics of rs/src/traits/mod.rs
--   Persistence          rs/src/db/mod.rs: the configuration of QuestDB and the rows written to it
--   Persistence/Setup    the migrations of the program, connect and apply_ttl of rs/src/db/mod.rs
--   Client               the struct of a client, its builders, and what a message changes in it
--   Okx/Client, Kraken/Client, Bitstamp/Client
--                        the handling of a message in rs/src/okx/ws.rs, rs/src/kraken/ws.rs and
--                        rs/src/bitstamp/ws.rs, and their persist_message
--   Urls                 the table of rs/src/urls.rs
--   Launch               CliArgs of rs/src/main.rs, and how main starts a client for an instrument
--   Launch/Startup       main of rs/src/main.rs up to the tasks that it spawns
--   Launch/Table         print_instrument_table of rs/src/main.rs
--   Connection           run in rs/src/okx/ws.rs, rs/src/kraken/ws.rs and rs/src/bitstamp/ws.rs as a
--                        state machine, over what an exchange does differently
--   Okx/Run, Kraken/Run, Bitstamp/Run
--                        the machine of each of the three
-- The other modules hold lemmas and theorems; those under Tests, concrete runs.
--
-- How the state corresponds. A book is a record of its two sides. A side is the list of the entries
-- of its BTreeMap in key order: asks by OrderedFloat's order, bids by its reverse, so that the first
-- entry is the best price. Methods on &mut self return the new book. Loops over a batch are structural
-- recursions over it. One function has fuel: decimal_before, which writes the digits of a number; one
-- more than the number is enough, since each step divides the number by ten.
--
-- Numbers. f64 is a parameter, the record Float: its two comparisons, is_nan, the operations and
-- parse. Theorems name what they need of it: that OrderedFloat's comparison is a total preorder
-- (IsPreorder), or that it agrees with the comparison of numbers that are not NaN (IsLawful). Counts
-- are natural numbers, since they count the elements of a list. backoff_delay is computed on natural
-- numbers, where f64 is exact or infinite; its jitter is an argument. The count of the attempts of a
-- client is a u32 and wraps, as does the i64 of trades_total, which is modelled by its 64 bits.
--
-- Parameters. serde_json's conversions are arguments of the functions that call them. The HashMap of
-- single orders is the list of its entries, in the order of its iteration, with a layout that says how
-- each insertion rearranges them. What the environment does
-- (results of a connection, of a send, of a read, of the REST request, and a signal during a wait) is
-- data in the messages and rounds that a run takes. The database of the migrator is a state, and one
-- HTTP request a step of it. to_uppercase, which maps all of Unicode, is an argument too.
--
-- questdb's Sender and Buffer are the record Ingress, with what the crate documents of a Buffer as the
-- hypothesis IsBuffer. The clocks that a client reads while it handles a message are data beside the
-- message, and its shared gauges and statuses are held in it by value.
--
-- Not modelled: which lines are logged and the logger itself (rasant), the drawing of the table of
-- instruments (prettytable), the reading of the command line by clap, the HTTP server around
-- /metrics, and the runtime under the tasks and the clients (tokio, sockets). The log of a message that
-- does not parse slices its text and can panic; the step that skips such a message stands for a log
-- that does not.
pub mod Common
pub mod Float
pub mod LevelMap
pub mod Traits
pub mod Json
pub mod Text
pub mod Dict
pub mod Status
pub mod Metrics
pub mod Persistence
pub mod Client
pub mod Urls
pub mod Logging
pub mod Launch
pub mod Book
pub mod Connection
pub mod Migrate
pub mod Instruments
pub mod Okx
pub mod Kraken
pub mod Bitstamp
pub mod Tests
