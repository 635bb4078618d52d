-- ===== src/Traits.antt =====
-- rs/src/traits/mod.rs: what the three exchange clients share, the level filter, the delay between two
-- connection attempts, and the trait of the order books.
pub mod Filter
pub mod Backoff
pub mod Book
pub mod Builder
