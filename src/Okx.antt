-- ===== src/Okx.antt =====
-- rs/src/okx: the order book and the messages of OKX.
pub mod Lob
pub mod Types
pub mod Display
pub mod Observers
pub mod Builder
pub mod Client
pub mod Channels
pub mod Run
