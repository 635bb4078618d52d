-- ===== src/Bitstamp/Messages.antt =====
-- `process_msg` of rs/src/bitstamp/lob.rs. `book_of` and `entry_of` are `serde_json::from_value` at
-- `OrderBookData` and `OrderEntry`.
use text.Mathlib.Text.{starts_with}
use cryptomeria.Common.{Option, none, some, String, if◌then◌else◌}
use cryptomeria.Float.{Float}
use cryptomeria.Traits.Filter.{LobFilter}
use cryptomeria.Bitstamp.Types.{
  BitstampWsMessage, OrderEntry, OrderBookData, MessageType, message_type, l2_snapshot, l2_update,
}
use cryptomeria.Bitstamp.Lob.{OrderBook, apply_snapshot, apply_diff, apply_order}
use cryptomeria.Bitstamp.Filters.{filter_snapshot, filter_diff, filter_order_entry}

module _ {ℓ} {F : Type ℓ} ⦃f : Float F⦄ where
  abbrev pub take_snapshot : OrderBook F → Option (LobFilter F) → Option OrderBookData → OrderBook F
  take_snapshot book filter none = book
  take_snapshot book none (some ob) = apply_snapshot book ob
  take_snapshot book (some flt) (some ob) = apply_snapshot book (filter_snapshot book ob flt)

  abbrev pub take_diff : OrderBook F → Option (LobFilter F) → Option OrderBookData → OrderBook F
  take_diff book filter none = book
  take_diff book none (some ob) = apply_diff book ob
  take_diff book (some flt) (some ob) = apply_diff book (filter_diff book ob flt)

  abbrev pub apply_entry : OrderBook F → Option OrderEntry → OrderBook F
  apply_entry book none = book
  apply_entry book (some entry) = apply_order book entry

  abbrev pub take_entry : OrderBook F → Option (LobFilter F) → Option OrderEntry → OrderBook F
  take_entry book filter none = book
  take_entry book none (some entry) = apply_order book entry
  take_entry book (some flt) (some entry) = apply_entry book (filter_order_entry book entry flt)

  module _ {κ} {V : Type κ} (book_of : V → Option OrderBookData)
      (entry_of : V → Option OrderEntry) where
    abbrev pub take_update : OrderBook F → Option (LobFilter F) → Option String → V → OrderBook F
    take_update book filter none d = book
    take_update book filter (some channel) d =
        if starts_with channel "live_orders_"
        then take_entry book filter (entry_of d)
        else take_diff book filter (book_of d)

    abbrev pub dispatch :
        OrderBook F → Option (LobFilter F) → MessageType → Option String → V → OrderBook F
    dispatch book filter l2_snapshot channel d = take_snapshot book filter (book_of d)
    dispatch book filter l2_update channel d = take_update book filter channel d
    dispatch book filter _ channel d = book

    abbrev pub process_content :
        OrderBook F → Option (LobFilter F) → MessageType → Option String → Option V → OrderBook F
    process_content book filter type channel none = book
    process_content book filter type channel (some d) = dispatch book filter type channel d

    unfoldable pub process_msg :
        OrderBook F → BitstampWsMessage V → Option (LobFilter F) → OrderBook F
    process_msg book msg filter =
        process_content book filter (message_type msg) msg.channel msg.content
