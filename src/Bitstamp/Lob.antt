-- ===== src/Bitstamp/Lob.antt =====
-- rs/src/bitstamp/lob.rs: price levels, with the single orders that the `live_orders_` channels
-- report. The two maps of price levels are those of the module Book.
use cryptomeria.Common.{
  ℕ, ◌+◌, List, [], ◌∷◌, Bool, true, false, ◌&&◌, ◌||◌, not, Option, none, some, eq, String, ◌==◌,
  take, keep, map, if◌then◌else◌,
}
use cryptomeria.Common.Int.{is_zero}
use cryptomeria.Float.{Float, feq, fgt, sum}
use cryptomeria.LevelMap.{LevelMap}
use cryptomeria.Json.{and_then}
use cryptomeria.Book.{Side, bid, ask, update_entry, snapshot_levels, update_levels}
use cryptomeria.Bitstamp.Types.{OrderEntry, OrderBookData}

pub record OrderInfo {ℓ} (F : Type ℓ) : Type ℓ where
  pub price : F
  pub size : F
  pub side : Side

-- A `HashMap` iterates in an order that depends on its hash keys, its capacity and its history, and
-- an insertion can change it for all entries. A layout says what the n-th insertion makes of it.
abbrev pub Layout {ℓ} : Type ℓ → Type ℓ
Layout F = ℕ → List (ℕ × OrderInfo F) → List (ℕ × OrderInfo F)

-- `HashMap<u64, OrderInfo>`: its entries in the order of iteration.
pub record Orders {ℓ} (F : Type ℓ) : Type ℓ where
  pub entries : List (ℕ × OrderInfo F)
  pub insertions : ℕ
  pub layout : Layout F

pub record OrderBook {ℓ} (F : Type ℓ) : Type ℓ where
  pub orders : Orders F
  pub bids : LevelMap F F
  pub asks : LevelMap F F
  pub snapshot_depth : ℕ

module _ {ℓ} {F : Type ℓ} where
  abbrev pub new_orders : Layout F → Orders F
  new_orders layout = record { entries = []; insertions = 0; layout = layout }

  -- with the layout of the `HashMap::new()`
  unfoldable pub with_snapshot_depth : Layout F → ℕ → OrderBook F
  with_snapshot_depth layout depth = record {
    orders = new_orders layout;
    bids = [];
    asks = [];
    snapshot_depth = depth;
  }

  abbrev pub side_levels : OrderBook F → Side → LevelMap F F
  side_levels book bid = book.bids
  side_levels book ask = book.asks

  abbrev pub with_side : OrderBook F → Side → LevelMap F F → OrderBook F
  with_side book bid m = record book { bids = m }
  with_side book ask m = record book { asks = m }

  -- `HashMap::get`, `insert` and `remove`, on the entries
  unfoldable pub get_order : ℕ → List (ℕ × OrderInfo F) → Option (OrderInfo F)
  get_order id [] = none
  get_order id ((j, o) ∷ rest) = if j == id then some o else get_order id rest

  unfoldable pub insert_order : ℕ → OrderInfo F → List (ℕ × OrderInfo F) → List (ℕ × OrderInfo F)
  insert_order id o [] = (id, o) ∷ []
  insert_order id o ((j, p) ∷ rest) =
      if j == id then (id, o) ∷ rest else (j, p) ∷ insert_order id o rest

  unfoldable pub remove_order : ℕ → List (ℕ × OrderInfo F) → List (ℕ × OrderInfo F)
  remove_order id [] = []
  remove_order id ((j, p) ∷ rest) = if j == id then rest else (j, p) ∷ remove_order id rest

module _ {ℓ} {F : Type ℓ} where
  abbrev pub with_order : ℕ → OrderInfo F → Orders F → Orders F
  with_order id o orders = record orders {
    entries = orders.layout orders.insertions (insert_order id o orders.entries);
    insertions = orders.insertions + 1;
  }

  abbrev pub without_order : ℕ → Orders F → Orders F
  without_order id orders = record orders { entries = remove_order id orders.entries }

abbrev pub same_side : Side → Side → Bool
same_side bid bid = true
same_side ask ask = true
same_side _ _ = false

abbrev pub entry_side : OrderEntry → Side
entry_side entry = if is_zero entry.order_type then bid else ask

module _ {ℓ} {F : Type ℓ} ⦃f : Float F⦄ where
  -- `==` of `OrderedFloat`
  abbrev pub same_price : F → F → Bool
  same_price a b = elim (f.cmp a b) [ eq ↦ true | _ ↦ false ]

  -- the orders of one price level
  abbrev pub at_level : Side → F → ℕ × OrderInfo F → Bool
  at_level side price e = same_side e.1.side side && same_price e.1.price price

  abbrev pub level_total : List (ℕ × OrderInfo F) → Side → F → F
  level_total orders side price = sum (map (λ e. e.1.size) (keep (at_level side price) orders))

  unfoldable pub rebuild_price_level : OrderBook F → Side → F → OrderBook F
  rebuild_price_level book side price = with_side book side (
      update_entry side (some (price, level_total book.orders.entries side price))
        (side_levels book side))

  abbrev pub put_order : OrderBook F → ℕ → F → F → Side → OrderBook F
  put_order book id price size side = record book {
    orders = with_order id (record { price = price; size = size; side = side }) book.orders;
  }

  -- the part of `apply_order` behind the two parses
  abbrev pub place_order : OrderBook F → Option (OrderInfo F) → ℕ → F → F → Side → OrderBook F
  place_order book (some existing) id price amount side =
      if feq amount f.nought
      then rebuild_price_level (record book { orders = without_order id book.orders }) existing.side
          existing.price
      else if not (same_price existing.price price) || not (same_side existing.side side)
      then rebuild_price_level
          (rebuild_price_level (put_order book id price amount side) existing.side existing.price)
          side price
      else rebuild_price_level (put_order book id price amount side) side price
  place_order book none id price amount side =
      if fgt amount f.nought
      then rebuild_price_level (put_order book id price amount side) side price
      else book

  -- a price or an amount that does not parse is logged, and the entry dropped
  abbrev pub apply_parsed : OrderBook F → OrderEntry → Option F → Option F → OrderBook F
  apply_parsed book entry none amount = book
  apply_parsed book entry (some price) none = book
  apply_parsed book entry (some price) (some amount) =
      place_order book (get_order entry.id book.orders.entries) entry.id price amount
        (entry_side entry)

  unfoldable pub apply_order : OrderBook F → OrderEntry → OrderBook F
  apply_order book entry = apply_parsed book entry (f.parse entry.price) (f.parse entry.amount)

  -- a level of `OrderBookData`
  unfoldable pub parse_pair : String × String → Option (F × F)
  parse_pair (p, a) =
      and_then (f.parse p) (λ price. and_then (f.parse a) (λ amount. some (price, amount)))

  unfoldable pub apply_snapshot : OrderBook F → OrderBookData → OrderBook F
  apply_snapshot book ob = record book {
    orders = record book.orders { entries = [] };
    bids = snapshot_levels parse_pair bid (take book.snapshot_depth ob.bids) [];
    asks = snapshot_levels parse_pair ask (take book.snapshot_depth ob.asks) [];
  }

  unfoldable pub apply_diff : OrderBook F → OrderBookData → OrderBook F
  apply_diff book ob = record book {
    bids = update_levels parse_pair bid ob.bids book.bids;
    asks = update_levels parse_pair ask ob.asks book.asks;
  }
