-- ===== src/Bitstamp/Invariant.antt =====
-- The invariant of the Bitstamp order book, and that every message keeps it.
use text.Mathlib.Text.{starts_with}
use cryptomeria.Common.{ℕ, Option, none, some, String, inl, inr, Bool-cases, not, ◌||◌, []}
use cryptomeria.Float.{Float, feq, fgt, IsPreorder}
use cryptomeria.Traits.Filter.{LobFilter}
use cryptomeria.Book.{Side, bid, ask}
use cryptomeria.Book.Invariant.{
  IsSideValid, update_entry-IsSideValid, snapshot_levels-IsSideValid, update_levels-IsSideValid,
  []-IsSideValid,
}
use cryptomeria.Bitstamp.Types.{
  BitstampWsMessage, OrderEntry, OrderBookData, MessageType, message_type, l2_snapshot, l2_update,
}
use cryptomeria.Bitstamp.Lob.{
  OrderBook, OrderInfo, rebuild_price_level, put_order, place_order, get_order, apply_parsed,
  apply_order, apply_snapshot, apply_diff, parse_pair, entry_side, same_price, same_side, Orders,
  without_order,
}
use cryptomeria.Bitstamp.Filters.{filter_snapshot, filter_diff, filter_order_entry}
use cryptomeria.Bitstamp.Messages.{
  take_snapshot, take_diff, apply_entry, take_entry, take_update, dispatch, process_content,
  process_msg,
}

module _ {ℓ} {F : Type ℓ} ⦃f : Float F⦄ where
  pub record IsValid (book : OrderBook F) : Type 0 where
    pub bids_valid : IsSideValid bid book.bids
    pub asks_valid : IsSideValid ask book.asks

module _ {ℓ} {F : Type ℓ} ⦃f : Float F⦄ (p : IsPreorder f.cmp) where
  pub rebuild_price_level-IsValid :
      (book : OrderBook F) (side : Side) (price : F)
      → IsValid book
      → IsValid (rebuild_price_level book side price)
  unfolding rebuild_price_level
  rebuild_price_level-IsValid book bid price v = record {
    bids_valid = update_entry-IsSideValid p bid _ book.bids v.bids_valid;
    asks_valid = v.asks_valid;
  }
  rebuild_price_level-IsValid book ask price v = record {
    bids_valid = v.bids_valid;
    asks_valid = update_entry-IsSideValid p ask _ book.asks v.asks_valid;
  }

  pub with_orders-IsValid :
      (book : OrderBook F) (orders : Orders F)
      → IsValid book
      → IsValid (record book { orders = orders })
  with_orders-IsValid book orders v = record {
    bids_valid = v.bids_valid;
    asks_valid = v.asks_valid;
  }

  place_order-IsValid :
      (book : OrderBook F) (existing : Option (OrderInfo F)) (id : ℕ) (price amount : F)
      (side : Side)
      → IsValid book
      → IsValid (place_order book existing id price amount side)
  place_order-IsValid book (some old) id price amount side v =
      elim (Bool-cases (feq amount f.nought)) [
        | inl z ↦ rw z (
            rebuild_price_level-IsValid _ old.side old.price
              (with_orders-IsValid book (without_order id book.orders) v))
        | inr nz ↦
            rw nz
              (elim (Bool-cases
                (not (same_price old.price price) || not (same_side old.side side))) [
                  | inl moved ↦ rw moved (
                      rebuild_price_level-IsValid _ side price (
                        rebuild_price_level-IsValid (put_order book id price amount side) old.side
                          old.price (with_orders-IsValid book _ v)))
                  | inr same ↦ rw same (
                      rebuild_price_level-IsValid (put_order book id price amount side) side price
                        (with_orders-IsValid book _ v))
                ])
      ]
  place_order-IsValid book none id price amount side v = elim (Bool-cases (fgt amount f.nought)) [
    | inl pos ↦ rw pos (
        rebuild_price_level-IsValid (put_order book id price amount side) side price
          (with_orders-IsValid book _ v))
    | inr not_pos ↦ rw not_pos v
  ]

  apply_parsed-IsValid :
      (book : OrderBook F) (entry : OrderEntry) (price amount : Option F)
      → IsValid book
      → IsValid (apply_parsed book entry price amount)
  apply_parsed-IsValid book entry none amount v = v
  apply_parsed-IsValid book entry (some price) none v = v
  apply_parsed-IsValid book entry (some price) (some amount) v =
      place_order-IsValid book (get_order entry.id book.orders.entries) entry.id price amount
        (entry_side entry) v

  pub apply_order-IsValid :
      (book : OrderBook F) (entry : OrderEntry) → IsValid book → IsValid (apply_order book entry)
  unfolding apply_order
  apply_order-IsValid book entry v =
      apply_parsed-IsValid book entry (f.parse entry.price) (f.parse entry.amount) v

  pub apply_snapshot-IsValid :
      (book : OrderBook F) (ob : OrderBookData) → IsValid (apply_snapshot book ob)
  unfolding apply_snapshot
  apply_snapshot-IsValid book ob = record {
    bids_valid = snapshot_levels-IsSideValid p parse_pair bid _ [] ([]-IsSideValid bid);
    asks_valid = snapshot_levels-IsSideValid p parse_pair ask _ [] ([]-IsSideValid ask);
  }

  pub apply_diff-IsValid :
      (book : OrderBook F) (ob : OrderBookData) → IsValid book → IsValid (apply_diff book ob)
  unfolding apply_diff
  apply_diff-IsValid book ob v = record {
    bids_valid = update_levels-IsSideValid p parse_pair bid ob.bids book.bids v.bids_valid;
    asks_valid = update_levels-IsSideValid p parse_pair ask ob.asks book.asks v.asks_valid;
  }

  take_entry-IsValid :
      (book : OrderBook F) (filter : Option (LobFilter F)) (entry : Option OrderEntry)
      → IsValid book
      → IsValid (take_entry book filter entry)
  take_entry-IsValid book filter none v = v
  take_entry-IsValid book none (some entry) v = apply_order-IsValid book entry v
  take_entry-IsValid book (some flt) (some entry) v =
      by_filtered (filter_order_entry book entry flt)
    where
      by_filtered : (e : Option OrderEntry) → IsValid (apply_entry book e)
      by_filtered none = v
      by_filtered (some e) = apply_order-IsValid book e v

  take_diff-IsValid :
      (book : OrderBook F) (filter : Option (LobFilter F)) (ob : Option OrderBookData)
      → IsValid book
      → IsValid (take_diff book filter ob)
  take_diff-IsValid book filter none v = v
  take_diff-IsValid book none (some ob) v = apply_diff-IsValid book ob v
  take_diff-IsValid book (some flt) (some ob) v =
      apply_diff-IsValid book (filter_diff book ob flt) v

  take_snapshot-IsValid :
      (book : OrderBook F) (filter : Option (LobFilter F)) (ob : Option OrderBookData)
      → IsValid book
      → IsValid (take_snapshot book filter ob)
  take_snapshot-IsValid book filter none v = v
  take_snapshot-IsValid book none (some ob) v = apply_snapshot-IsValid book ob
  take_snapshot-IsValid book (some flt) (some ob) v =
      apply_snapshot-IsValid book (filter_snapshot book ob flt)

  module _ {κ} {V : Type κ} (book_of : V → Option OrderBookData)
      (entry_of : V → Option OrderEntry) where
    take_update-IsValid :
        (book : OrderBook F) (filter : Option (LobFilter F)) (channel : Option String) (d : V)
        → IsValid book
        → IsValid (take_update book_of entry_of book filter channel d)
    take_update-IsValid book filter none d v = v
    take_update-IsValid book filter (some channel) d v =
        elim (Bool-cases (starts_with channel "live_orders_")) [
          | inl e ↦ rw e (take_entry-IsValid book filter (entry_of d) v)
          | inr e ↦ rw e (take_diff-IsValid book filter (book_of d) v)
        ]

    dispatch-IsValid :
        (book : OrderBook F) (filter : Option (LobFilter F)) (type : MessageType)
        (channel : Option String) (d : V)
        → IsValid book
        → IsValid (dispatch book_of entry_of book filter type channel d)
    dispatch-IsValid book filter l2_snapshot channel d v =
        take_snapshot-IsValid book filter (book_of d) v
    dispatch-IsValid book filter l2_update channel d v = take_update-IsValid book filter channel d v
    dispatch-IsValid book filter _ channel d v = v

    process_content-IsValid :
        (book : OrderBook F) (filter : Option (LobFilter F)) (type : MessageType)
        (channel : Option String) (d : Option V)
        → IsValid book
        → IsValid (process_content book_of entry_of book filter type channel d)
    process_content-IsValid book filter type channel none v = v
    process_content-IsValid book filter type channel (some d) v =
        dispatch-IsValid book filter type channel d v

    -- If the prices are totally preordered, every message of Bitstamp (a snapshot, a diff, a single
    -- order or any other), with every filter, keeps each side in its strict price order and free of
    -- levels of amount 0.0.
    pub process_msg-IsValid :
        (book : OrderBook F) (msg : BitstampWsMessage V) (filter : Option (LobFilter F))
        → IsValid book
        → IsValid (process_msg book_of entry_of book msg filter)
    unfolding process_msg
    process_msg-IsValid book msg filter v =
        process_content-IsValid book filter (message_type msg) msg.channel msg.content v
