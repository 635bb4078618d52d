-- ===== src/Traits/Book.antt =====
-- The trait OrderBook of rs/src/traits/mod.rs: what the books of the three exchanges have in common.
use cryptomeria.Common.{ℕ, List, Option, String}

pub record OrderBook {ℓ κ} (F : Type ℓ) (Self : Type κ) : Type (ℓ ⊔ κ) where
  pub new : Self
  pub with_snapshot_depth : ℕ → Self
  pub num_bids : Self → ℕ
  pub num_asks : Self → ℕ
  pub best_bid : Self → Option F
  pub best_ask : Self → Option F
  pub spread : Self → Option F
  pub levels_within_pct : Self → F → List (F × F) × List (F × F)
  pub total_bid_size : Self → F
  pub total_ask_size : Self → F
  pub display : Self → String → F → String
