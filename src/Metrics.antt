-- ===== src/Metrics.antt =====
-- The gauges of `LobMetrics` (rs/src/traits/mod.rs), and how the three clients set them:
-- update_lob_metrics and update_depth_metrics, whose text is the same in the three files.
pub mod Shown
pub mod Report
pub mod Registry
use cryptomeria.Common.{
  ℕ, ◌+◌, ◌%◌, ◌^◌, List, [], ◌∷◌, Bool, true, false, ◌&&◌, Option, none, some, String, ◌≡◌, ◌↔◌,
  arith, if◌then◌else◌,
}
use cryptomeria.Dict.{Key, Dict, get, insert, text_key}
use cryptomeria.Float.{Float}
use cryptomeria.Book.{OrderBook}
use cryptomeria.Book
use cryptomeria.Migrate.{unwrap_or}

abbrev pub same_labels : List String → List String → Bool
same_labels [] [] = true
same_labels [] (y ∷ ys) = false
same_labels (x ∷ xs) [] = false
same_labels (x ∷ xs) (y ∷ ys) = text_key.same x y && same_labels xs ys

pub same_labels_iff : (xs ys : List String) → (same_labels xs ys ≡ true) ↔ (xs ≡ ys)
same_labels_iff [] [] = ground arith
same_labels_iff [] (y ∷ ys) = ground arith
same_labels_iff (x ∷ xs) [] = ground arith
same_labels_iff (x ∷ xs) (y ∷ ys) = ground (arith, text_key.same_iff x y, same_labels_iff xs ys)

-- The values of the labels of a gauge, in the order of their names.
instance abbrev pub labels_key : Key (List String)
labels_key = record { same = same_labels; same_iff = same_labels_iff }

-- A `GaugeVec`: the gauges that `with_label_values` has made.
abbrev pub GaugeVec {ℓ} : Type ℓ → Type ℓ
GaugeVec F = Dict (List String) F

-- An `IntGaugeVec` holds i64, each here as its 64 bits: a number below 2^64, of which those from 2^63
-- on stand for the negative ones.
abbrev pub IntGaugeVec : Type 0
IntGaugeVec = Dict (List String) ℕ

abbrev pub next_count : ℕ → ℕ
next_count n = (n + 1) % 2 ^ 64

pub record LobMetrics {ℓ} (F : Type ℓ) : Type ℓ where
  pub best_bid : GaugeVec F
  pub best_ask : GaugeVec F
  pub spread : GaugeVec F
  pub last_update : GaugeVec F
  pub trades_total : IntGaugeVec
  pub trades_per_second : F
  pub lob_depth_bid : GaugeVec F
  pub lob_depth_ask : GaugeVec F

-- What the two functions read of a book of any of the exchanges.
pub record BookView {ℓ} (F : Type ℓ) : Type ℓ where
  pub view_best_bid : Option F
  pub view_best_ask : Option F
  pub view_spread : Option F
  pub view_bid_size : F
  pub view_ask_size : F
  pub view_bids : List (F × F)
  pub view_asks : List (F × F)

module _ {ℓ} {F : Type ℓ} ⦃f : Float F⦄ where
  unfoldable pub book_view : OrderBook F → BookView F
  book_view book = record {
    view_best_bid = Book.best_bid book;
    view_best_ask = Book.best_ask book;
    view_spread = Book.spread book;
    view_bid_size = Book.total_bid_size book;
    view_ask_size = Book.total_ask_size book;
    view_bids = book.bids;
    view_asks = book.asks;
  }

module _ {ℓ} {F : Type ℓ} where
  -- `if let Some(x) = value { gauge.with_label_values(&labels).set(x) }`
  abbrev pub set_some : List String → Option F → GaugeVec F → GaugeVec F
  set_some labels none gauge = gauge
  set_some labels (some x) gauge = insert labels x gauge

  -- `now` is the time in milliseconds, as an f64.
  unfoldable pub update_lob_metrics : String → String → F → BookView F → LobMetrics F → LobMetrics F
  update_lob_metrics exchange cli_instrument now view lm =
      let labels = exchange ∷ cli_instrument ∷ [] in
      record lm {
        best_bid = set_some labels view.view_best_bid lm.best_bid;
        best_ask = set_some labels view.view_best_ask lm.best_ask;
        spread = set_some labels view.view_spread lm.spread;
        last_update = insert labels now lm.last_update;
      }

  -- `price_text` is `format!("{:.2}", price)`.
  module _ (price_text : F → String) where
    abbrev pub depth_labels : String → String → F → List String
    depth_labels exchange cli_instrument price = exchange ∷ cli_instrument ∷ price_text price ∷ []

    unfoldable pub set_depth : String → String → List (F × F) → GaugeVec F → GaugeVec F
    set_depth exchange cli_instrument [] gauge = gauge
    set_depth exchange cli_instrument ((price, amount) ∷ levels) gauge =
        set_depth exchange cli_instrument levels
          (insert (depth_labels exchange cli_instrument price) amount gauge)

    unfoldable pub update_depth_metrics : String → String → BookView F → LobMetrics F → LobMetrics F
    update_depth_metrics exchange cli_instrument view lm = record lm {
      lob_depth_bid = set_depth exchange cli_instrument view.view_bids lm.lob_depth_bid;
      lob_depth_ask = set_depth exchange cli_instrument view.view_asks lm.lob_depth_ask;
    }

  -- `trades_total.with_label_values(&[exchange, cli_instrument]).inc()`, which wraps around
  unfoldable pub count_trade : String → String → LobMetrics F → LobMetrics F
  count_trade exchange cli_instrument lm =
      let labels = exchange ∷ cli_instrument ∷ [] in
      record lm {
        trades_total =
            insert labels (next_count (unwrap_or 0 (get labels lm.trades_total))) lm.trades_total;
      }
