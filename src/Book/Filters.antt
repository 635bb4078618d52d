-- ===== src/Book/Filters.antt =====
-- How an order book of OKX or Kraken filters the levels of a message before it applies them.
use cryptomeria.Common.{
  List, [], ◌∷◌, Bool, true, false, Option, none, some, Ordering, eq, gt, length, keep, take,
  keep_map, if◌then◌else◌, map,
}
use cryptomeria.Float.{Float, fgt, flt}
use cryptomeria.LevelMap.{contains_key}
use cryptomeria.Traits.Filter.{LobFilter, max_level_pct, max_level, should_include}
use cryptomeria.Book.{
  Side, bid, ask, OrderBook, LevelFormat, best_bid, best_ask, side_levels, side_cmp,
}

abbrev pub is_bid : Side → Bool
is_bid bid = true
is_bid ask = false

module _ {ℓ} {F : Type ℓ} ⦃f : Float F⦄ where
  -- one step of the loop of `find_best_price`: bids look for the greatest price, asks for the least
  abbrev pub better : Side → Option F → F → Option F
  better side none price = some price
  better bid (some best) price = if fgt price best then some price else some best
  better ask (some best) price = if flt price best then some price else some best

  -- `partial_cmp(..).unwrap_or(Equal)`, with the greatest bid and the least ask first
  abbrev pub compare_prices : Side → F → F → Ordering
  compare_prices bid a b = elim (f.partial_cmp b a) [ none ↦ eq | some o ↦ o ]
  compare_prices ask a b = elim (f.partial_cmp a b) [ none ↦ eq | some o ↦ o ]

-- `slice::sort_by` is stable: an entry goes before the later ones that it equals. Where `cmp` is no
-- total order, which a NaN price makes it, Rust leaves the order open; this is one of them.
module _ {ℓ} {A : Type ℓ} (cmp : A → A → Ordering) where
  unfoldable pub place : A → List A → List A
  place x [] = x ∷ []
  place x (y ∷ ys) = elim (cmp x y) [ gt ↦ y ∷ place x ys | _ ↦ x ∷ y ∷ ys ]

  unfoldable pub sort_by : List A → List A
  sort_by [] = []
  sort_by (x ∷ xs) = place x (sort_by xs)

module _ {ℓ κ} {F : Type ℓ} {L : Type κ} ⦃f : Float F⦄ (format : LevelFormat F L) where
  abbrev pub next_best : Side → Option F → L → Option F
  next_best side best level = elim (format.view_level level) [
    | none ↦ best
    | some (price, amount) ↦ better side best price
  ]

  unfoldable pub find_best : Side → Option F → List L → Option F
  find_best side best [] = best
  find_best side best (level ∷ rest) = find_best side (next_best side best level) rest

  unfoldable pub find_best_price : List L → Side → Option F
  unfolding find_best
  find_best_price levels side = find_best side none levels

  -- `(price, level)` of the levels that parse to a positive amount
  abbrev pub priced : L → Option (F × L)
  priced level = elim (format.view_level level) [
    | none ↦ none
    | some (price, amount) ↦ if fgt amount f.nought then some (price, level) else none
  ]

  abbrev pub passes_snapshot : OrderBook F → Side → LobFilter F → Option F → L → Bool
  passes_snapshot book side filter batch_best level = elim (format.view_level level) [
    | none ↦ true
    | some (price, amount) ↦
        should_include filter (if is_bid side then batch_best else best_bid book)
          (if is_bid side then best_ask book else batch_best) price amount (is_bid side) 0 false
  ]

  unfoldable pub filter_snapshot_levels :
      OrderBook F → List L → Side → LobFilter F → Option F → List L
  filter_snapshot_levels book levels side (max_level_pct pct) batch_best =
      keep (passes_snapshot book side (max_level_pct pct) batch_best) levels
  filter_snapshot_levels book levels side (max_level max) batch_best =
      map (λ e. e.1)
        (take max (sort_by (λ a b. compare_prices side a.0 b.0) (keep_map priced levels)))

  abbrev pub passes_update : OrderBook F → Side → LobFilter F → L → Bool
  passes_update book side filter level = elim (format.view_level level) [
    | none ↦ true
    | some (price, amount) ↦
        should_include filter (best_bid book) (best_ask book) price amount (is_bid side)
          (length (side_levels book side))
          (contains_key (side_cmp side) price (side_levels book side))
  ]

  unfoldable pub filter_levels : OrderBook F → List L → Side → LobFilter F → List L
  filter_levels book levels side filter = keep (passes_update book side filter) levels
