-- ===== src/Okx/Types.antt =====
-- rs/src/okx/types.rs: what a message is, and the levels that it carries for persistence.
use text.Mathlib.Text.{◌==◌ as str_eq}
use cryptomeria.Common.{
  ℕ, List, [], ◌++◌, Bool, true, false, Option, none, some, String, map, if◌then◌else◌, first,
}
use cryptomeria.Json.{Json, and_then}

pub record ChannelArg : Type 0 where
  pub channel : String
  pub inst_id : String

-- The envelope of a message, over the type `V` of `serde_json::Value`.
pub record OkxWsMessage {ℓ} (V : Type ℓ) : Type ℓ where
  pub arg : Option ChannelArg
  pub action : Option String
  pub items : List V  -- the field `data`
  pub event : Option String

pub data MessageType : Type 0 where
  l2_snapshot l2_update l2 trade event_message unknown : MessageType

-- `opt.as_deref() == Some(text)`
abbrev pub is_text : Option String → String → Bool
is_text none t = false
is_text (some s) t = str_eq s t

abbrev pub is_present {ℓ} : {A : Type ℓ} → Option A → Bool
is_present none = false
is_present (some a) = true

abbrev pub books_type : Option String → MessageType
books_type action =
    if is_text action "snapshot"
    then l2_snapshot
    else if is_text action "update"
    then l2_update
    else l2

abbrev pub channel_type : Option ChannelArg → Option String → MessageType
channel_type none action = unknown
channel_type (some a) action =
    if str_eq a.channel "books"
    then books_type action
    else if str_eq a.channel "trades"
    then trade
    else unknown

pub record LobLevel : Type 0 where
  pub price : String
  pub size : String
  pub count : String
  pub orders : String

pub record TradeData : Type 0 where
  pub inst_id : String
  pub trade_id : String
  pub px : String
  pub sz : String
  pub side : String
  pub ts : String

pub record LobData : Type 0 where
  pub bids : List LobLevel
  pub asks : List LobLevel

module _ {ℓ} {V : Type ℓ} where
  unfoldable pub message_type : OkxWsMessage V → MessageType
  message_type msg = if is_present msg.event then event_message else channel_type msg.arg msg.action

  -- `from_value` is `serde_json::from_value::<LobData>(..).ok()`.
  module _ (from_value : V → Option LobData) where
    unfoldable pub lob_snapshot : OkxWsMessage V → Option LobData
    lob_snapshot msg =
        if is_text msg.action "snapshot" then and_then (first msg.items) from_value else none

    unfoldable pub lob_update : OkxWsMessage V → Option LobData
    lob_update msg =
        if is_text msg.action "update" then and_then (first msg.items) from_value else none

    abbrev pub tagged : LobData → List (String × LobLevel)
    tagged d = map (λ l. ("bid", l)) d.bids ++ map (λ l. ("ask", l)) d.asks

    unfoldable pub lob_levels : OkxWsMessage V → List (String × LobLevel)
    unfolding lob_snapshot lob_update
    lob_levels msg = elim (lob_snapshot msg) [
      | some d ↦ tagged d
      | none ↦ elim (lob_update msg) [ some d ↦ tagged d | none ↦ [] ]
    ]

-- The time of a message in milliseconds, from `ts` of its first item; `parse_u64` is
-- `str::parse::<u64>`.
unfoldable pub timestamp_ms {ℓ κ} :
    {F : Type ℓ} {V : Type κ} → Json F V → (String → Option ℕ) → OkxWsMessage V → Option ℕ
timestamp_ms json parse_u64 msg =
    and_then (first msg.items)
      (λ d. and_then (json.get d "ts") (λ t. and_then (json.as_str t) (λ raw_ts. parse_u64 raw_ts)))
