-- ===== src/Bitstamp/Observers.antt =====
-- The observers of the book of rs/src/bitstamp/lob.rs, which read its price levels, and the trait
-- OrderBook at it.
use cryptomeria.Common.{ℕ, List, Option, String}
use cryptomeria.Float.{Float}
use cryptomeria.Book
use cryptomeria.Book.Display
use cryptomeria.Book.Display.{ShowFloat}
use cryptomeria.Bitstamp.Lob
use cryptomeria.Bitstamp.Lob.{OrderBook, Layout}
use cryptomeria.Traits.Book as Trait

module _ {ℓ} {F : Type ℓ} where
  -- the two maps of price levels
  abbrev pub price_levels : OrderBook F → Book.OrderBook F
  price_levels book = record { bids = book.bids; asks = book.asks }

  -- `layout` is that of the new map
  unfoldable pub new : Layout F → OrderBook F
  new layout = Lob.with_snapshot_depth layout 400

  unfoldable pub num_bids : OrderBook F → ℕ
  num_bids book = Book.num_bids (price_levels book)

  unfoldable pub num_asks : OrderBook F → ℕ
  num_asks book = Book.num_asks (price_levels book)

  unfoldable pub best_bid : OrderBook F → Option F
  best_bid book = Book.best_bid (price_levels book)

  unfoldable pub best_ask : OrderBook F → Option F
  best_ask book = Book.best_ask (price_levels book)

module _ {ℓ} {F : Type ℓ} ⦃f : Float F⦄ where
  unfoldable pub spread : OrderBook F → Option F
  spread book = Book.spread (price_levels book)

  unfoldable pub levels_within_pct : OrderBook F → F → List (F × F) × List (F × F)
  levels_within_pct book = Book.levels_within_pct (price_levels book)

  unfoldable pub total_bid_size : OrderBook F → F
  total_bid_size book = Book.total_bid_size (price_levels book)

  unfoldable pub total_ask_size : OrderBook F → F
  total_ask_size book = Book.total_ask_size (price_levels book)

  unfoldable pub display : ShowFloat F → OrderBook F → String → F → String
  display shows book = Display.display shows (price_levels book)

  unfoldable pub order_book : Layout F → ShowFloat F → Trait.OrderBook F (OrderBook F)
  order_book layout shows = record {
    new = new layout;
    with_snapshot_depth = Lob.with_snapshot_depth layout;
    num_bids = num_bids;
    num_asks = num_asks;
    best_bid = best_bid;
    best_ask = best_ask;
    spread = spread;
    levels_within_pct = levels_within_pct;
    total_bid_size = total_bid_size;
    total_ask_size = total_ask_size;
    display = display shows;
  }
