-- ===== src/Book.antt =====
-- The in-memory order book that rs/src/okx/lob.rs and rs/src/kraken/lob.rs both write out: the same
-- text but for the type of a price level and for how a level is read, which are parameters here
-- (`LevelFormat`). The modules Okx.Lob and Kraken.Lob take them from the two files.
pub mod Filters
pub mod Messages
pub mod Invariant
pub mod Refinement
pub mod Best
pub mod Depth
pub mod Window
pub mod Display
pub mod Sorting
pub mod Selection
pub mod BatchBest
use cryptomeria.Common.{
  ℕ, List, [], ◌∷◌, Bool, true, Option, none, some, Ordering, length, keep, take, if◌then◌else◌,
}
use cryptomeria.Float.{Float, feq, fgt, fge, fle, sum}
use cryptomeria.LevelMap.{LevelMap, reverse_cmp, first_key, insert, remove, values}
use cryptomeria.Traits.Filter.{bid_floor, ask_ceiling}

pub data Side : Type 0 where
  bid ask : Side

pub record OrderBook {ℓ} (F : Type ℓ) : Type ℓ where
  pub bids : LevelMap F F
  pub asks : LevelMap F F

-- How an exchange writes a price level `L`: `parse_level` reads the levels that are applied,
-- `view_level` those that are filtered.
pub record LevelFormat {ℓ κ} (F : Type ℓ) (L : Type κ) : Type (ℓ ⊔ κ) where
  pub parse_level : L → Option (F × F)
  pub view_level : L → Option (F × F)

abbrev pub new {ℓ} : {F : Type ℓ} → OrderBook F
new = record { bids = []; asks = [] }

module _ {ℓ} {F : Type ℓ} where
  abbrev pub num_bids : OrderBook F → ℕ
  num_bids book = length book.bids

  abbrev pub num_asks : OrderBook F → ℕ
  num_asks book = length book.asks

  abbrev pub best_bid : OrderBook F → Option F
  best_bid book = first_key book.bids

  abbrev pub best_ask : OrderBook F → Option F
  best_ask book = first_key book.asks

  abbrev pub side_levels : OrderBook F → Side → LevelMap F F
  side_levels book bid = book.bids
  side_levels book ask = book.asks

  abbrev pub with_side : OrderBook F → Side → LevelMap F F → OrderBook F
  with_side book bid m = record book { bids = m }
  with_side book ask m = record book { asks = m }

  pub top_bids : OrderBook F → ℕ → List (F × F)
  top_bids book n = take n book.bids

  pub top_asks : OrderBook F → ℕ → List (F × F)
  top_asks book n = take n book.asks

module _ {ℓ} {F : Type ℓ} ⦃f : Float F⦄ where
  -- bids are keyed by `Reverse<OrderedFloat<f64>>`, asks by `OrderedFloat<f64>`
  abbrev pub side_cmp : Side → F → F → Ordering
  side_cmp bid = reverse_cmp f.cmp
  side_cmp ask = f.cmp

  pub spread : OrderBook F → Option F
  spread book = between (best_ask book) (best_bid book)
    where
      between : Option F → Option F → Option F
      between (some a) (some b) = some (f.sub a b)
      between _ _ = none

  abbrev pub bid_in_window : F → Option F → F × F → Bool
  bid_in_window pct none e = true
  bid_in_window pct (some best) e = fge e.0 (bid_floor pct best)

  abbrev pub ask_in_window : F → Option F → F × F → Bool
  ask_in_window pct none e = true
  ask_in_window pct (some best) e = fle e.0 (ask_ceiling pct best)

  unfoldable pub levels_within_pct : OrderBook F → F → List (F × F) × List (F × F)
  levels_within_pct book top_pct = (
    keep (bid_in_window top_pct (best_bid book)) book.bids,
    keep (ask_in_window top_pct (best_ask book)) book.asks,
  )

  pub total_bid_size : OrderBook F → F
  total_bid_size book = sum (values book.bids)

  pub total_ask_size : OrderBook F → F
  total_ask_size book = sum (values book.asks)

module _ {ℓ} {F : Type ℓ} ⦃f : Float F⦄ where
  -- one level of a snapshot: written if it parses and its amount is positive
  unfoldable pub snapshot_entry : Side → Option (F × F) → LevelMap F F → LevelMap F F
  snapshot_entry side none m = m
  snapshot_entry side (some (price, amount)) m =
      if fgt amount f.nought then insert (side_cmp side) price amount m else m

  -- one level of an update: removed if its amount is 0.0, and written if not
  unfoldable pub update_entry : Side → Option (F × F) → LevelMap F F → LevelMap F F
  update_entry side none m = m
  update_entry side (some (price, amount)) m =
      if feq amount f.nought
      then remove (side_cmp side) price m
      else insert (side_cmp side) price amount m

module _ {ℓ κ} {F : Type ℓ} {L : Type κ} ⦃f : Float F⦄ (parse_level : L → Option (F × F)) where
  unfoldable pub snapshot_levels : Side → List L → LevelMap F F → LevelMap F F
  snapshot_levels side [] m = m
  snapshot_levels side (level ∷ rest) m =
      snapshot_levels side rest (snapshot_entry side (parse_level level) m)

  unfoldable pub update_levels : Side → List L → LevelMap F F → LevelMap F F
  update_levels side [] m = m
  update_levels side (level ∷ rest) m =
      update_levels side rest (update_entry side (parse_level level) m)

module _ {ℓ κ} {F : Type ℓ} {L : Type κ} ⦃f : Float F⦄ (format : LevelFormat F L) where
  unfoldable pub apply_snapshot : OrderBook F → List L → Side → OrderBook F
  apply_snapshot book levels side =
      with_side book side (snapshot_levels format.parse_level side levels [])

  unfoldable pub apply_update : OrderBook F → List L → Side → OrderBook F
  apply_update book levels side =
      with_side book side (update_levels format.parse_level side levels (side_levels book side))
