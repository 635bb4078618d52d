-- ===== src/Kraken/Display.antt =====
-- What rs/src/kraken/types.rs and rs/src/kraken/ws.rs show of a message on the terminal.
use Prim.Native.String.{◌++◌ as ◌⊕◌}
use text.Mathlib.Text.{◌==◌ as str_eq}
use cryptomeria.Common.{
  ℕ, Bool, true, false, ◌||◌, Option, none, some, String, take, first, keep_map, if◌then◌else◌,
}
use cryptomeria.Float.{Float}
use cryptomeria.Json.{Json, Scalar, signed, unsigned, float, string, ShowNumber, and_then}
use cryptomeria.Migrate.{unwrap_or}
use cryptomeria.Text.Decimal.{join}
use cryptomeria.Text.Clock
use cryptomeria.Kraken.Types.{
  KrakenWsMessage, MessageType, TradeData, Times, message_type, l2_snapshot, l2_update, l2, trade,
  heartbeat, status, event_message, unknown, timestamp_ms,
}

abbrev pub type_tag : MessageType → String
type_tag heartbeat = "HEARTBEAT"
type_tag status = "STATUS"
type_tag event_message = "EVENT"
type_tag l2_snapshot = "LOB2 SNAPSHOT"
type_tag l2_update = "LOB2 UPDATE"
type_tag l2 = "LOB2"
type_tag trade = "TRADE"
type_tag unknown = "UNKNOWN"

-- `{:.2}` and `{:.4}` of an f64, and `{}` of a `serde_json::Value`, which is its JSON
pub record Shows {ℓ κ} (F : Type ℓ) (V : Type κ) : Type (ℓ ⊔ κ) where
  pub two_decimals : F → String
  pub four_decimals : F → String
  pub show_value : V → String

module _ {ℓ κ} {F : Type ℓ} {V : Type κ} (json : Json F V) (shows : Shows F V)
    (from_value : V → Option (TradeData F)) where
  unfoldable pub display_type : KrakenWsMessage V → String
  display_type msg = type_tag (message_type msg)

  abbrev pub shown_number : (F → String) → V → String → Option String
  shown_number show l key = and_then (and_then (json.get l key) json.as_f64) (λ x. some (show x))

  -- a level without a number for its price or its quantity is left out
  abbrev pub format_level : V → Option String
  format_level l =
      and_then (shown_number shows.two_decimals l "price")
        (λ p. and_then (shown_number shows.four_decimals l "qty") (λ s. some (p ⊕ " (" ⊕ s ⊕ ")")))

  -- the first two elements, or nothing without an array
  unfoldable pub format_top_levels : V → String → String
  format_top_levels d key = elim (and_then (json.get d key) json.as_array) [
    | none ↦ ""
    | some arr ↦ join ", " (keep_map format_level (take 2 arr))
  ]

  abbrev pub top_of : Option V → String
  top_of none = ""
  top_of (some d) = "bids: " ⊕ format_top_levels d "bids" ⊕ " | asks: " ⊕ format_top_levels d "asks"

  abbrev pub trade_line : String → Option (TradeData F) → String
  trade_line inst none = inst ⊕ " (raw)"
  trade_line inst (some t) =
      inst
      ⊕ " @ "
      ⊕ shows.four_decimals t.price
      ⊕ " sz="
      ⊕ shows.four_decimals t.qty
      ⊕ " side="
      ⊕ t.side

  abbrev pub error_text : Option V → String
  error_text none = ""
  error_text (some e) = ": " ⊕ shows.show_value e

  abbrev pub outcome : Option Bool → Option V → String
  outcome none error = ""
  outcome (some true) error = " success"
  outcome (some false) error = " error" ⊕ error_text error

  -- the match is on the text of `display_type`
  unfoldable pub summary : KrakenWsMessage V → String
  summary msg =
      let inst =
        unwrap_or "?"
          (and_then (first msg.items) (λ d. and_then (json.get d "symbol") json.as_str)) in
      let tag = display_type msg in
      if str_eq tag "LOB2 SNAPSHOT" || (str_eq tag "LOB2 UPDATE" || str_eq tag "LOB2")
      then inst ⊕ " " ⊕ top_of (first msg.items)
      else if str_eq tag "TRADE"
      then trade_line inst (and_then (first msg.items) from_value)
      else if str_eq tag "HEARTBEAT"
      then "heartbeat"
      else if str_eq tag "STATUS"
      then "status"
      else if str_eq tag "EVENT"
      then unwrap_or "?" msg.method ⊕ outcome msg.success msg.error
      else inst

  unfoldable pub formatted_time : ⦃f : Float F⦄ → Times F → ℕ × ℕ → KrakenWsMessage V → String
  formatted_time times now msg = Clock.formatted_time (timestamp_ms json times msg) now

  -- `now` is the local clock, in seconds and milliseconds
  unfoldable pub display_message : ⦃f : Float F⦄ → Times F → ℕ × ℕ → KrakenWsMessage V → String
  display_message times now msg =
      "[" ⊕ formatted_time times now msg ⊕ " " ⊕ display_type msg ⊕ "] " ⊕ summary msg

unfoldable pub deserialize_number_or_string {ℓ} : {F : Type ℓ} → ShowNumber F → Scalar F → String
deserialize_number_or_string show (signed v) = show.show_i64 v
deserialize_number_or_string show (unsigned v) = show.show_u64 v
deserialize_number_or_string show (float v) = show.show_f64 v
deserialize_number_or_string show (string v) = v
