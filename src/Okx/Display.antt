-- ===== src/Okx/Display.antt =====
-- What rs/src/okx/types.rs and rs/src/okx/ws.rs show of a message on the terminal.
use Prim.Native.String.{◌++◌ as ◌⊕◌}
use text.Mathlib.Text.{◌==◌ as str_eq}
use cryptomeria.Common.{
  ℕ, List, [], ◌∷◌, ◌||◌, Option, none, some, String, map, take, first, if◌then◌else◌,
}
use cryptomeria.Json.{Json, and_then}
use cryptomeria.Migrate.{unwrap_or}
use cryptomeria.Text.Decimal.{join}
use cryptomeria.Text.Clock.{formatted_time}
use cryptomeria.Okx.Types.{
  OkxWsMessage, ChannelArg, MessageType, TradeData, message_type, l2_snapshot, l2_update, l2, trade,
  event_message, unknown, timestamp_ms,
}

abbrev pub type_tag : MessageType → String
type_tag event_message = "EVENT"
type_tag l2_snapshot = "LOB2 SNAPSHOT"
type_tag l2_update = "LOB2 UPDATE"
type_tag l2 = "LOB2"
type_tag trade = "TRADE"
type_tag unknown = "UNKNOWN"

abbrev pub inst_of : Option ChannelArg → String
inst_of none = "?"
inst_of (some a) = a.inst_id

module _ {ℓ κ} {F : Type ℓ} {V : Type κ} (json : Json F V) (from_value : V → Option TradeData) where
  unfoldable pub display_type : OkxWsMessage V → String
  display_type msg = type_tag (message_type msg)

  -- `l.get(i).and_then(|v| v.as_str()).unwrap_or("?")`, where `l.get(i)` is none but of an array
  abbrev pub text_at : Option V → String
  text_at v = unwrap_or "?" (and_then v json.as_str)

  abbrev pub second {μ} : {A : Type μ} → List A → Option A
  second [] = none
  second (a ∷ []) = none
  second (a ∷ b ∷ rest) = some b

  abbrev pub format_level : V → String
  format_level l =
      text_at (and_then (json.as_array l) first)
      ⊕ " ("
      ⊕ text_at (and_then (json.as_array l) second)
      ⊕ ")"

  -- up to two levels, or nothing without an array
  unfoldable pub format_top_levels : V → String → String
  format_top_levels d key = elim (and_then (json.get d key) json.as_array) [
    | none ↦ ""
    | some arr ↦ join ", " (map format_level (take 2 arr))
  ]

  abbrev pub top_of : Option V → String
  top_of none = ""
  top_of (some d) = "bids: " ⊕ format_top_levels d "bids" ⊕ " | asks: " ⊕ format_top_levels d "asks"

  abbrev pub trade_line : String → Option TradeData → String
  trade_line inst none = inst ⊕ " (raw)"
  trade_line inst (some t) = inst ⊕ " @ " ⊕ t.px ⊕ " sz=" ⊕ t.sz ⊕ " side=" ⊕ t.side

  -- the match is on the text of `display_type`
  unfoldable pub summary : OkxWsMessage V → String
  summary msg =
      let inst = inst_of msg.arg in
      let tag = display_type msg in
      if str_eq tag "LOB2 SNAPSHOT" || (str_eq tag "LOB2 UPDATE" || str_eq tag "LOB2")
      then inst ⊕ " " ⊕ top_of (first msg.items)
      else if str_eq tag "TRADE"
      then trade_line inst (and_then (first msg.items) from_value)
      else if str_eq tag "EVENT"
      then unwrap_or "?" msg.event
      else inst

  -- `now` is the local clock, in seconds and milliseconds
  unfoldable pub display_message : (String → Option ℕ) → ℕ × ℕ → OkxWsMessage V → String
  display_message parse_u64 now msg =
      "["
      ⊕ formatted_time (timestamp_ms json parse_u64 msg) now
      ⊕ " "
      ⊕ display_type msg
      ⊕ "] "
      ⊕ summary msg
