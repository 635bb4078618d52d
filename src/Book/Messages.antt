-- ===== src/Book/Messages.antt =====
-- `process_msg` of OKX and Kraken: the filters and the two ways to apply levels, put together.
use text.Mathlib.Text.{◌==◌ as str_eq}
use cryptomeria.Common.{List, [], ◌∷◌, Option, none, some, String, is_empty, if◌then◌else◌}
use cryptomeria.Float.{Float}
use cryptomeria.Traits.Filter.{LobFilter}
use cryptomeria.Book.{Side, bid, ask, OrderBook, LevelFormat, apply_snapshot, apply_update}
use cryptomeria.Book.Filters.{filter_snapshot_levels, filter_levels, find_best_price}

-- The action of a message, whose absence means "snapshot".
pub data Action : Type 0 where
  snapshot update other : Action

unfoldable pub read_action : Option String → Action
read_action none = snapshot
read_action (some s) =
    if str_eq s "snapshot" then snapshot else if str_eq s "update" then update else other

-- The key of a side in the data of a message.
abbrev pub side_key : Side → String
side_key bid = "bids"
side_key ask = "asks"

module _ {ℓ κ} {F : Type ℓ} {L : Type κ} ⦃f : Float F⦄ (format : LevelFormat F L) where
  abbrev pub filtered : OrderBook F → Action → Side → List L → Option (LobFilter F) → List L
  filtered book action side levels none = levels
  filtered book snapshot side levels (some filter) =
      filter_snapshot_levels format book levels side filter (find_best_price format levels side)
  filtered book _ side levels (some filter) = filter_levels format book levels side filter

  abbrev pub apply_action : OrderBook F → Action → Side → List L → OrderBook F
  apply_action book snapshot side levels = apply_snapshot format book levels side
  apply_action book update side levels = apply_update format book levels side
  apply_action book other side levels = book

  -- one round of the loop over the two sides
  unfoldable pub process_side :
      OrderBook F → Action → Side → List L → Option (LobFilter F) → OrderBook F
  process_side book action side levels filter =
      let kept = filtered book action side levels filter in
      if is_empty levels
      then book
      else if is_empty kept
      then book
      else apply_action book action side kept

  module _ {μ} {V : Type μ} (parse_levels : V → String → List L) where
    unfoldable pub process_msg :
        OrderBook F → List V → Option String → Option (LobFilter F) → OrderBook F
    process_msg book [] action filter = book
    process_msg book (d ∷ ds) action filter =
        let act = read_action action in
        let book' = process_side book act bid (parse_levels d (side_key bid)) filter in
        process_side book' act ask (parse_levels d (side_key ask)) filter
