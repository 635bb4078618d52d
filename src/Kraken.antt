-- ===== src/Kraken.antt =====
-- rs/src/kraken: the order book and the messages of Kraken.
pub mod Lob
pub mod Types
pub mod Display
pub mod Observers
pub mod Builder
pub mod Client
pub mod Channels
pub mod Run
