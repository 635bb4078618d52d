-- ===== src/Bitstamp/Types.antt =====
-- rs/src/bitstamp/types.rs: what a message is, and what is read from it.
use text.Mathlib.Text.{◌==◌ as str_eq, starts_with}
use cryptomeria.Common.{
  ℕ, List, [], ◌∷◌, ◌++◌, Bool, false, ◌&&◌, ◌||◌, Option, none, some, String, map, is_empty,
  if◌then◌else◌,
}
use cryptomeria.Common.Int.{ℤ, is_zero}
use cryptomeria.Float.{Float}
use cryptomeria.Json.{and_then}

-- The envelope of a message, over the type `V` of `serde_json::Value`.
pub record BitstampWsMessage {ℓ} (V : Type ℓ) : Type ℓ where
  pub event : Option String
  pub channel : Option String
  pub content : Option V  -- the field `data`

pub data MessageType : Type 0 where
  l2_snapshot l2_update trade event_message unknown : MessageType

pub record OrderEntry : Type 0 where
  pub id : ℕ
  pub id_str : String
  pub price : String
  pub amount : String
  pub order_type : ℤ
  pub timestamp : String

-- a level is `[price, amount]`, an array of two texts
pub record OrderBookData : Type 0 where
  pub bids : List (String × String)
  pub asks : List (String × String)
  pub timestamp : String
  pub microtimestamp : String

pub record LobLevel : Type 0 where
  pub price : String
  pub size : String

pub record TradeData : Type 0 where
  pub id : ℕ
  pub price : String
  pub amount : String
  pub trade_type : ℤ  -- 0 for a buy, 1 for a sell
  pub timestamp : String
  pub microtimestamp : String
  pub buy_order_id : ℤ
  pub sell_order_id : ℤ

abbrev pub first_of_two {ℓ} : {A : Type ℓ} → Option A → Option A → Option A
first_of_two none later = later
first_of_two (some a) later = some a

-- a missing channel starts with nothing
abbrev pub channel_starts : Option String → String → Bool
channel_starts none prefix = false
channel_starts (some c) prefix = starts_with c prefix

abbrev pub is_order_event : String → Bool
is_order_event e =
    str_eq e "order_created" || (str_eq e "order_deleted" || str_eq e "order_changed")

abbrev pub is_book_channel : Option String → Bool
is_book_channel c =
    channel_starts c "order_book_"
    || (channel_starts c "diff_order_book_" || channel_starts c "live_orders_")

abbrev pub is_subscription_event : String → Bool
is_subscription_event e =
    str_eq e "bts:subscription_succeeded" || str_eq e "bts:unsubscription_succeeded"

abbrev pub event_type : Option String → String → MessageType
event_type channel e =
    if is_order_event e
    then l2_update
    else if str_eq e "snapshot"
    then l2_snapshot
    else if str_eq e "data"
    then (if is_book_channel channel then l2_update else unknown)
    else if str_eq e "trade" || str_eq e "live_trades"
    then trade
    else if is_subscription_event e
    then event_message
    else if channel_starts channel "live_orders_"
    then l2_update
    else event_message

module _ {ℓ} {V : Type ℓ} where
  unfoldable pub message_type : BitstampWsMessage V → MessageType
  message_type msg = elim msg.event [ none ↦ unknown | some e ↦ event_type msg.channel e ]

  -- `book_of` and `entry_of` are `serde_json::from_value(..).ok()` at the two types.
  module _ (book_of : V → Option OrderBookData) (entry_of : V → Option OrderEntry) where
    abbrev pub book_levels : OrderBookData → List (String × LobLevel)
    book_levels ob =
        map (λ l. ("bid", record { price = l.0; size = l.1 })) ob.bids
        ++ map (λ l. ("ask", record { price = l.0; size = l.1 })) ob.asks

    abbrev pub entry_levels : Option OrderEntry → List (String × LobLevel)
    entry_levels none = []
    entry_levels (some e) =
        (if is_zero e.order_type then "bid" else "ask", record { price = e.price; size = e.amount })
        ∷ []

    -- An order book with no level at all is read as an order entry.
    abbrev pub content_levels : Option OrderBookData → Option OrderEntry → List (String × LobLevel)
    content_levels none entry = entry_levels entry
    content_levels (some ob) entry =
        if is_empty ob.bids && is_empty ob.asks then entry_levels entry else book_levels ob

    unfoldable pub lob_levels : BitstampWsMessage V → List (String × LobLevel)
    lob_levels msg = elim msg.content [
      | none ↦ []
      | some d ↦ content_levels (book_of d) (entry_of d)
    ]

  -- `trade_stamp` reads the `microtimestamp` of a `TradeData`, `parse_u64` is `str::parse::<u64>`.
  module _ (book_of : V → Option OrderBookData) (trade_stamp : V → Option String)
      (parse_u64 : String → Option ℕ) where
    unfoldable pub microtimestamp_us : BitstampWsMessage V → Option ℕ
    microtimestamp_us msg = and_then msg.content (λ d.
        first_of_two (and_then (book_of d) (λ ob. parse_u64 ob.microtimestamp))
          (and_then (trade_stamp d) parse_u64))

-- The number 1000.0, the cast of an f64 to a u64, and `str::parse::<u64>().ok()`.
pub record Times {ℓ} (F : Type ℓ) : Type ℓ where
  pub thousand : F
  pub to_u64 : F → ℕ
  pub parse_u64 : String → Option ℕ

module _ {ℓ κ} {F : Type ℓ} {V : Type κ} ⦃f : Float F⦄ (times : Times F)
    (entry_of : V → Option OrderEntry) (trade_of : V → Option TradeData) where
  abbrev pub of_seconds : Option F → Option ℕ
  of_seconds secs = and_then secs (λ x. some (times.to_u64 (f.mul x times.thousand)))

  abbrev pub entry_ms : OrderEntry → Option ℕ
  entry_ms entry =
      first_of_two (of_seconds (f.parse entry.timestamp)) (times.parse_u64 entry.timestamp)

  abbrev pub trade_ms : TradeData → Option ℕ
  trade_ms t = of_seconds (f.parse t.timestamp)

  unfoldable pub timestamp_ms : BitstampWsMessage V → Option ℕ
  timestamp_ms msg =
      and_then msg.content
        (λ d. first_of_two (and_then (entry_of d) entry_ms) (and_then (trade_of d) trade_ms))
