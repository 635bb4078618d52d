-- ===== src/Okx/Observers.antt =====
-- The trait OrderBook at the book of rs/src/okx/lob.rs.
use cryptomeria.Float.{Float}
use cryptomeria.Book
use cryptomeria.Book.{OrderBook}
use cryptomeria.Book.Display
use cryptomeria.Book.Display.{ShowFloat}
use cryptomeria.Traits.Book as Trait

-- A depth given for the snapshot is ignored.
unfoldable pub order_book {ℓ} :
    {F : Type ℓ} ⦃f : Float F⦄ → ShowFloat F → Trait.OrderBook F (OrderBook F)
order_book shows = record {
  new = Book.new;
  with_snapshot_depth = λ depth. Book.new;
  num_bids = Book.num_bids;
  num_asks = Book.num_asks;
  best_bid = Book.best_bid;
  best_ask = Book.best_ask;
  spread = Book.spread;
  levels_within_pct = Book.levels_within_pct;
  total_bid_size = Book.total_bid_size;
  total_ask_size = Book.total_ask_size;
  display = Display.display shows;
}
