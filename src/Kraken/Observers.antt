-- ===== src/Kraken/Observers.antt =====
-- The observers of the book of rs/src/kraken/lob.rs, and the trait OrderBook at it.
use cryptomeria.Common.{ℕ, List, Option, String}
use cryptomeria.Float.{Float}
use cryptomeria.Book
use cryptomeria.Book.Display
use cryptomeria.Book.Display.{ShowFloat}
use cryptomeria.Traits.Book as Trait

abbrev pub OrderBook {ℓ} : Type ℓ → Type ℓ
OrderBook F = Book.OrderBook F

module _ {ℓ} {F : Type ℓ} where
  unfoldable pub new : OrderBook F
  new = Book.new

  unfoldable pub num_bids : OrderBook F → ℕ
  num_bids = Book.num_bids

  unfoldable pub num_asks : OrderBook F → ℕ
  num_asks = Book.num_asks

  unfoldable pub best_bid : OrderBook F → Option F
  best_bid = Book.best_bid

  unfoldable pub best_ask : OrderBook F → Option F
  best_ask = Book.best_ask

  unfoldable pub top_bids : OrderBook F → ℕ → List (F × F)
  top_bids = Book.top_bids

  unfoldable pub top_asks : OrderBook F → ℕ → List (F × F)
  top_asks = Book.top_asks

module _ {ℓ} {F : Type ℓ} ⦃f : Float F⦄ where
  unfoldable pub spread : OrderBook F → Option F
  spread = Book.spread

  unfoldable pub levels_within_pct : OrderBook F → F → List (F × F) × List (F × F)
  levels_within_pct = Book.levels_within_pct

  unfoldable pub total_bid_size : OrderBook F → F
  total_bid_size = Book.total_bid_size

  unfoldable pub total_ask_size : OrderBook F → F
  total_ask_size = Book.total_ask_size

  unfoldable pub format_side : ShowFloat F → List (F × F) → String
  format_side shows = Display.format_side shows

  unfoldable pub display : ShowFloat F → OrderBook F → String → F → String
  display shows = Display.display shows

  -- A depth given for the snapshot is ignored.
  unfoldable pub order_book : ShowFloat F → Trait.OrderBook F (OrderBook F)
  order_book shows = record {
    new = new;
    with_snapshot_depth = λ depth. new;
    num_bids = num_bids;
    num_asks = num_asks;
    best_bid = best_bid;
    best_ask = best_ask;
    spread = spread;
    levels_within_pct = levels_within_pct;
    total_bid_size = total_bid_size;
    total_ask_size = total_ask_size;
    display = display shows;
  }
