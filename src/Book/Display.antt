-- ===== src/Book/Display.antt =====
-- display and format_side of rs/src/okx/lob.rs, the same in rs/src/kraken/lob.rs and
-- rs/src/bitstamp/lob.rs: a book as one line of the terminal.
use Prim.Native.String.{◌++◌ as ◌⊕◌}
use cryptomeria.Common.{List, Option, none, some, String, map}
use cryptomeria.Float.{Float}
use cryptomeria.Text.Decimal.{decimal, join}
use cryptomeria.Book.{OrderBook, num_bids, num_asks, spread}

-- `{:.2}` and `{}` of an f64
pub record ShowFloat {ℓ} (F : Type ℓ) : Type ℓ where
  pub two_decimals : F → String
  pub shortest : F → String

module _ {ℓ} {F : Type ℓ} (shows : ShowFloat F) where
  abbrev pub format_level : F × F → String
  format_level (price, amount) = shows.two_decimals price ⊕ " (" ⊕ shows.shortest amount ⊕ ")"

  unfoldable pub format_side : List (F × F) → String
  format_side levels = join ", " (map format_level levels)

  abbrev pub spread_str : Option F → String
  spread_str none = "?"
  spread_str (some s) = shows.two_decimals s

  -- the percentage is not used
  unfoldable pub display : ⦃f : Float F⦄ → OrderBook F → String → F → String
  display book instrument top_pct =
      instrument
      ⊕ "  bids="
      ⊕ decimal (num_bids book)
      ⊕ "  asks="
      ⊕ decimal (num_asks book)
      ⊕ "  spread="
      ⊕ spread_str (spread book)
      ⊕ "  bids: [ "
      ⊕ format_side book.bids
      ⊕ " ] | asks: [ "
      ⊕ format_side book.asks
      ⊕ " ]"
