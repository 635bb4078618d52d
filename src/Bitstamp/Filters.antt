-- ===== src/Bitstamp/Filters.antt =====
-- The filters of rs/src/bitstamp/lob.rs, which count the levels that they let pass.
use cryptomeria.Common.{
  ℕ, ◌+◌, List, [], ◌∷◌, Bool, true, false, ◌&&◌, not, Option, none, some, length, String,
  if◌then◌else◌,
}
use cryptomeria.Float.{Float, fgt}
use cryptomeria.LevelMap.{contains_key, first_key}
use cryptomeria.Traits.Filter.{LobFilter, should_include}
use cryptomeria.Book.{Side, bid, ask, side_cmp}
use cryptomeria.Book.Filters.{is_bid}
use cryptomeria.Bitstamp.Types.{OrderEntry, OrderBookData}
use cryptomeria.Bitstamp.Lob.{OrderBook, side_levels, entry_side, parse_pair}

-- `Option::or`
abbrev pub or_else {ℓ} : {A : Type ℓ} → Option A → Option A → Option A
or_else none b = b
or_else (some a) b = some a

abbrev pub add_if : Bool → ℕ → ℕ
add_if true n = n + 1
add_if false n = n

module _ {ℓ} {F : Type ℓ} ⦃f : Float F⦄ where
  abbrev pub best : OrderBook F → Side → Option F
  best book side = first_key (side_levels book side)

  -- the price of the first level with a positive amount
  abbrev pub positive_price : Option (F × F) → Option F → Option F
  positive_price none later = later
  positive_price (some (price, amount)) later = if fgt amount f.nought then some price else later

  abbrev pub first_positive : List (String × String) → Option F
  first_positive [] = none
  first_positive (l ∷ ls) = positive_price (parse_pair l) (first_positive ls)

  abbrev pub snapshot_passes : LobFilter F → Option F → Option F → Side → ℕ → Option (F × F) → Bool
  snapshot_passes filter best_bid best_ask side count none = false
  snapshot_passes filter best_bid best_ask side count (some (price, amount)) =
      fgt amount f.nought
      && should_include filter best_bid best_ask price amount (is_bid side) count false

  -- one of the two loops of `filter_snapshot`; each level that passes is counted
  unfoldable pub filter_snapshot_side :
      LobFilter F → Option F → Option F → Side → ℕ → List (String × String) → List (String × String)
  filter_snapshot_side filter bb ba side count [] = []
  filter_snapshot_side filter bb ba side count (l ∷ ls) =
      let passes = snapshot_passes filter bb ba side count (parse_pair l) in
      let rest = filter_snapshot_side filter bb ba side (add_if passes count) ls in
      if passes then l ∷ rest else rest

  unfoldable pub filter_snapshot : OrderBook F → OrderBookData → LobFilter F → OrderBookData
  filter_snapshot book ob filter =
      let bb = or_else (first_positive ob.bids) (best book bid) in
      let ba = or_else (first_positive ob.asks) (best book ask) in
      record ob {
        bids = filter_snapshot_side filter bb ba bid 0 ob.bids;
        asks = filter_snapshot_side filter bb ba ask 0 ob.asks;
      }

  abbrev pub is_known : OrderBook F → Side → Option (F × F) → Bool
  is_known book side none = false
  is_known book side (some (price, amount)) =
      contains_key (side_cmp side) price (side_levels book side)

  abbrev pub diff_passes : OrderBook F → LobFilter F → Side → ℕ → Option (F × F) → Bool
  diff_passes book filter side count none = false
  diff_passes book filter side count (some (price, amount)) =
      should_include filter (best book bid) (best book ask) price amount (is_bid side) count
        (is_known book side (some (price, amount)))

  -- one of the two loops of `filter_diff`; a level that passes is counted if its price is new
  unfoldable pub filter_diff_side :
      OrderBook F → LobFilter F → Side → ℕ → List (String × String) → List (String × String)
  filter_diff_side book filter side count [] = []
  filter_diff_side book filter side count (l ∷ ls) =
      let passes = diff_passes book filter side count (parse_pair l) in
      let counts = passes && not (is_known book side (parse_pair l)) in
      let rest = filter_diff_side book filter side (add_if counts count) ls in
      if passes then l ∷ rest else rest

  unfoldable pub filter_diff : OrderBook F → OrderBookData → LobFilter F → OrderBookData
  filter_diff book ob filter = record ob {
    bids = filter_diff_side book filter bid (length book.bids) ob.bids;
    asks = filter_diff_side book filter ask (length book.asks) ob.asks;
  }

  unfoldable pub filter_order_entry : OrderBook F → OrderEntry → LobFilter F → Option OrderEntry
  filter_order_entry book entry filter =
      let side = entry_side entry in
      let read : Option (F × F) = parse_pair (entry.price, entry.amount) in
      if diff_passes book filter side (length (side_levels book side)) read
      then some entry
      else none
