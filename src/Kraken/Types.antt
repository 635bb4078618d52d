-- ===== src/Kraken/Types.antt =====
-- rs/src/kraken/types.rs: what a message is, and the levels that it carries for persistence.
pub mod Levels
use text.Mathlib.Text.{◌==◌ as str_eq}
use cryptomeria.Common.{
  ℕ, ◌-◌, ◌^◌, List, [], ◌++◌, Bool, true, false, ◌&&◌, Option, none, some, String, map,
  if◌then◌else◌, first,
}
use cryptomeria.Common.Int.{ℤ, pos, negsuc}
use cryptomeria.Json.{Json, and_then}
use cryptomeria.Float.{Float}

-- The envelope of a message, over the type `V` of `serde_json::Value`.
pub record KrakenWsMessage {ℓ} (V : Type ℓ) : Type ℓ where
  pub channel : Option String
  pub msg_type : Option String
  pub items : List V  -- the field `data`
  pub method : Option String
  pub success : Option Bool
  pub error : Option V

pub data MessageType : Type 0 where
  l2_snapshot l2_update l2 trade heartbeat status event_message unknown : MessageType

-- `opt.as_deref() == Some(text)`
abbrev pub is_text : Option String → String → Bool
is_text none t = false
is_text (some s) t = str_eq s t

abbrev pub book_type : Option String → MessageType
book_type msg_type =
    if is_text msg_type "snapshot"
    then l2_snapshot
    else if is_text msg_type "update"
    then l2_update
    else l2

abbrev pub method_type : Option String → MessageType
method_type none = unknown
method_type (some m) = event_message

abbrev pub channel_type : Option String → Option String → Option String → MessageType
channel_type none msg_type method = method_type method
channel_type (some c) msg_type method =
    if str_eq c "book"
    then book_type msg_type
    else if str_eq c "trade"
    then trade
    else if str_eq c "heartbeat"
    then heartbeat
    else if str_eq c "status"
    then status
    else unknown

pub record LobLevel {ℓ} (F : Type ℓ) : Type ℓ where
  pub price : F
  pub qty : F

pub record LobData {ℓ} (F : Type ℓ) : Type ℓ where
  pub symbol : String
  pub bids : List (LobLevel F)
  pub asks : List (LobLevel F)
  pub checksum : ℤ
  pub timestamp : String

pub record TradeData {ℓ} (F : Type ℓ) : Type ℓ where
  pub symbol : String
  pub side : String
  pub price : F
  pub qty : F
  pub trade_id : String
  pub timestamp : String

-- `parse_from_rfc3339(..).ok()` and `timestamp_millis()` of chrono, the number 1000.0, and the cast of
-- an f64 to a u64.
pub record Times {ℓ} (F : Type ℓ) : Type ℓ where
  pub rfc3339_millis : String → Option ℤ
  pub thousand : F
  pub to_u64 : F → ℕ

-- `n as u64` of an i64
abbrev pub as_u64 : ℤ → ℕ
as_u64 (pos n) = n
as_u64 (negsuc n) = 2 ^ 64 - 1 - n

module _ {ℓ} {F : Type ℓ} ⦃f : Float F⦄ where
  unfoldable pub parse_kraken_timestamp : Times F → String → Option ℕ
  parse_kraken_timestamp times ts = elim (times.rfc3339_millis ts) [
    | some millis ↦ some (as_u64 millis)
    | none ↦ and_then (f.parse ts) (λ x. some (times.to_u64 (f.mul x times.thousand)))
  ]

  -- The time of a message in milliseconds, from `timestamp` of its first item.
  unfoldable pub timestamp_ms {κ} : {V : Type κ} → Json F V → Times F → KrakenWsMessage V → Option ℕ
  timestamp_ms json times msg = and_then (first msg.items) (λ d.
      and_then (json.get d "timestamp")
        (λ t. and_then (json.as_str t) (λ raw_ts. parse_kraken_timestamp times raw_ts)))

module _ {ℓ} {V : Type ℓ} where
  unfoldable pub message_type : KrakenWsMessage V → MessageType
  message_type msg = channel_type msg.channel msg.msg_type msg.method

  -- `from_value` is `serde_json::from_value::<LobData>(..).ok()`.
  module _ {κ} {F : Type κ} (from_value : V → Option (LobData F)) where
    abbrev pub book_data : String → KrakenWsMessage V → Option (LobData F)
    book_data type msg =
        if is_text msg.msg_type type
        then (if is_text msg.channel "book" then and_then (first msg.items) from_value else none)
        else none

    unfoldable pub lob_snapshot : KrakenWsMessage V → Option (LobData F)
    lob_snapshot msg = book_data "snapshot" msg

    unfoldable pub lob_update : KrakenWsMessage V → Option (LobData F)
    lob_update msg = book_data "update" msg

    abbrev pub tagged : LobData F → List (String × LobLevel F)
    tagged d = map (λ l. ("bid", l)) d.bids ++ map (λ l. ("ask", l)) d.asks

    unfoldable pub lob_levels : KrakenWsMessage V → List (String × LobLevel F)
    unfolding lob_snapshot lob_update
    lob_levels msg = elim (lob_snapshot msg) [
      | some d ↦ tagged d
      | none ↦ elim (lob_update msg) [ some d ↦ tagged d | none ↦ [] ]
    ]
