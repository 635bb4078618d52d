-- ===== src/Bitstamp.antt =====
-- rs/src/bitstamp: the order book, the messages and the snapshot reconciliation of Bitstamp.
pub mod Types
pub mod Display
pub mod Observers
pub mod Builder
pub mod Lob
pub mod Filters
pub mod Messages
pub mod Channels
pub mod Session
pub mod Client
pub mod Run
pub mod Invariant
pub mod Depth
pub mod Orders
