-- ===== src/Okx/Lob.antt =====
-- rs/src/okx/lob.rs: a price level is a list of texts, `[price, size, ...]`.
use cryptomeria.Common.{List, [], ◌∷◌, Option, none, some, String, keep_map}
use cryptomeria.Float.{Float}
use cryptomeria.Json.{Json, and_then}
use cryptomeria.Traits.Filter.{LobFilter}
use cryptomeria.Book.{Side, OrderBook, LevelFormat}
use cryptomeria.Book
use cryptomeria.Book.Filters
use cryptomeria.Book.Messages

abbrev pub PriceLevel : Type 0
PriceLevel = List String

module _ {ℓ} {F : Type ℓ} ⦃f : Float F⦄ where
  -- `none` if the price or the amount is missing or does not parse
  unfoldable pub parse_level : PriceLevel → Option (F × F)
  parse_level [] = none
  parse_level (p ∷ []) = none
  parse_level (p ∷ a ∷ rest) =
      and_then (f.parse p) (λ price. and_then (f.parse a) (λ amount. some (price, amount)))

  abbrev pub format : LevelFormat F PriceLevel
  format = record { parse_level = parse_level; view_level = parse_level }

  module _ {κ} {V : Type κ} (json : Json F V) where
    -- Elements of a level that are no texts are left out, and so are levels that are no arrays.
    unfoldable pub parse_levels : V → String → List PriceLevel
    parse_levels d key = elim (and_then (json.get d key) json.as_array) [
      | none ↦ []
      | some arr ↦
          keep_map (λ v. and_then (json.as_array v) (λ a. some (keep_map json.as_str a))) arr
    ]

    unfoldable pub process_msg :
        OrderBook F → List V → Option String → Option (LobFilter F) → OrderBook F
    process_msg = Book.Messages.process_msg format parse_levels

  unfoldable pub apply_snapshot : OrderBook F → List PriceLevel → Side → OrderBook F
  apply_snapshot = Book.apply_snapshot format

  unfoldable pub apply_update : OrderBook F → List PriceLevel → Side → OrderBook F
  apply_update = Book.apply_update format

  unfoldable pub find_best_price : List PriceLevel → Side → Option F
  find_best_price = Book.Filters.find_best_price format

  unfoldable pub filter_snapshot_levels :
      OrderBook F → List PriceLevel → Side → LobFilter F → Option F → List PriceLevel
  filter_snapshot_levels = Book.Filters.filter_snapshot_levels format

  unfoldable pub filter_levels :
      OrderBook F → List PriceLevel → Side → LobFilter F → List PriceLevel
  filter_levels = Book.Filters.filter_levels format
