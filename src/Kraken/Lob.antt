-- ===== src/Kraken/Lob.antt =====
-- rs/src/kraken/lob.rs: a price level is a pair of numbers, which is not applied if one is NaN.
use cryptomeria.Common.{List, [], ◌||◌, Option, none, some, String, keep_map, if◌then◌else◌}
use cryptomeria.Float.{Float}
use cryptomeria.Json.{Json, and_then}
use cryptomeria.Traits.Filter.{LobFilter}
use cryptomeria.Book.{Side, OrderBook, LevelFormat}
use cryptomeria.Book
use cryptomeria.Book.Filters
use cryptomeria.Book.Messages

abbrev pub PriceLevel {ℓ} : Type ℓ → Type ℓ
PriceLevel F = F × F

module _ {ℓ} {F : Type ℓ} ⦃f : Float F⦄ where
  unfoldable pub parse_level : PriceLevel F → Option (F × F)
  parse_level (price, amount) =
      if f.is_nan price || f.is_nan amount then none else some (price, amount)

  -- the filters read the pair itself
  abbrev pub format : LevelFormat F (PriceLevel F)
  format = record { parse_level = parse_level; view_level = λ l. some l }

  module _ {κ} {V : Type κ} (json : Json F V) where
    -- `price` and `qty` as numbers; a level without one of them is left out
    abbrev pub read_level : V → Option (PriceLevel F)
    read_level v =
        and_then (and_then (json.get v "price") json.as_f64)
          (λ price. and_then (and_then (json.get v "qty") json.as_f64) (λ qty. some (price, qty)))

    unfoldable pub parse_levels : V → String → List (PriceLevel F)
    parse_levels d key = elim (and_then (json.get d key) json.as_array) [
      | none ↦ []
      | some arr ↦ keep_map read_level arr
    ]

    unfoldable pub process_msg :
        OrderBook F → List V → Option String → Option (LobFilter F) → OrderBook F
    process_msg = Book.Messages.process_msg format parse_levels

  unfoldable pub apply_snapshot : OrderBook F → List (PriceLevel F) → Side → OrderBook F
  apply_snapshot = Book.apply_snapshot format

  unfoldable pub apply_update : OrderBook F → List (PriceLevel F) → Side → OrderBook F
  apply_update = Book.apply_update format

  unfoldable pub find_best_price : List (PriceLevel F) → Side → Option F
  find_best_price = Book.Filters.find_best_price format

  unfoldable pub filter_snapshot_levels :
      OrderBook F → List (PriceLevel F) → Side → LobFilter F → Option F → List (PriceLevel F)
  filter_snapshot_levels = Book.Filters.filter_snapshot_levels format

  unfoldable pub filter_levels :
      OrderBook F → List (PriceLevel F) → Side → LobFilter F → List (PriceLevel F)
  filter_levels = Book.Filters.filter_levels format
