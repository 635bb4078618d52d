-- ===== src/Bitstamp/Display.antt =====
-- What rs/src/bitstamp/types.rs shows of a message on the terminal, and how it reads a number that may
-- be a text.
use Prim.Native.String.{◌++◌ as ◌⊕◌}
use cryptomeria.Common.{ℕ, ◌-◌, ◌^◌, Option, none, some, String, ltb, if◌then◌else◌}
use cryptomeria.Common.Int.{ℤ, pos, negsuc, is_zero}
use cryptomeria.Float.{Float}
use cryptomeria.Json.{Scalar, signed, unsigned, float, string, ShowNumber, and_then}
use cryptomeria.Migrate.{unwrap_or}
use cryptomeria.Text.Clock
use cryptomeria.Bitstamp.Types.{
  BitstampWsMessage, MessageType, OrderEntry, TradeData, Times, message_type, l2_snapshot,
  l2_update, trade, event_message, unknown, timestamp_ms,
}

abbrev pub type_tag : MessageType → String
type_tag l2_snapshot = "LOB2 SNAPSHOT"
type_tag l2_update = "LOB2 UPDATE"
type_tag trade = "TRADE"
type_tag event_message = "EVENT"
type_tag unknown = "UNKNOWN"

module _ {κ} {V : Type κ} (entry_of : V → Option OrderEntry) (trade_of : V → Option TradeData) where
  unfoldable pub display_type : BitstampWsMessage V → String
  display_type msg = type_tag (message_type msg)

  abbrev pub entry_line : String → String → Option OrderEntry → String
  entry_line label channel none = label ⊕ " " ⊕ channel ⊕ " (raw)"
  entry_line label channel (some e) =
      label
      ⊕ " "
      ⊕ channel
      ⊕ " "
      ⊕ (if is_zero e.order_type then "bid" else "ask")
      ⊕ " "
      ⊕ e.amount
      ⊕ "@"
      ⊕ e.price

  abbrev pub book_line : String → Option String → Option V → String
  book_line label none d = "?"
  book_line label (some channel) none = label ⊕ " " ⊕ channel ⊕ " (empty)"
  book_line label (some channel) (some d) = entry_line label channel (entry_of d)

  abbrev pub trade_line : String → Option TradeData → String
  trade_line channel none = channel ⊕ " (raw)"
  trade_line channel (some t) =
      channel
      ⊕ " @ "
      ⊕ t.price
      ⊕ " sz="
      ⊕ t.amount
      ⊕ " side="
      ⊕ (if is_zero t.trade_type then "buy" else "sell")

  abbrev pub summary_of : MessageType → BitstampWsMessage V → String
  summary_of l2_snapshot msg = book_line (unwrap_or "data" msg.event) msg.channel msg.content
  summary_of l2_update msg = book_line (unwrap_or "data" msg.event) msg.channel msg.content
  summary_of trade msg = trade_line (unwrap_or "?" msg.channel) (and_then msg.content trade_of)
  summary_of event_message msg = unwrap_or "?" msg.event
  summary_of unknown msg = unwrap_or "?" msg.channel

  unfoldable pub summary : BitstampWsMessage V → String
  summary msg = summary_of (message_type msg) msg

  unfoldable pub formatted_time {ℓ} :
      {F : Type ℓ} ⦃f : Float F⦄ → Times F → ℕ × ℕ → BitstampWsMessage V → String
  formatted_time times now msg = Clock.formatted_time (timestamp_ms times entry_of trade_of msg) now

  -- `now` is the local clock, in seconds and milliseconds
  unfoldable pub display_message {ℓ} :
      {F : Type ℓ} ⦃f : Float F⦄ → Times F → ℕ × ℕ → BitstampWsMessage V → String
  display_message times now msg =
      "[" ⊕ formatted_time times now msg ⊕ " " ⊕ display_type msg ⊕ "] " ⊕ summary msg

-- `n as i64` of a u64
abbrev pub as_i64 : ℕ → ℤ
as_i64 n = if ltb n (2 ^ 63) then pos n else negsuc (2 ^ 64 - 1 - n)

module _ {ℓ} {F : Type ℓ} where
  unfoldable pub deserialize_number_or_string : ShowNumber F → Scalar F → String
  deserialize_number_or_string show (signed v) = show.show_i64 v
  deserialize_number_or_string show (unsigned v) = show.show_u64 v
  deserialize_number_or_string show (float v) = show.show_f64 v
  deserialize_number_or_string show (string v) = v

  -- `cast` is `v as i64` of an f64, `parse` is `str::parse::<i64>().ok()`
  unfoldable pub deserialize_number_or_zero : (F → ℤ) → (String → Option ℤ) → Scalar F → ℤ
  deserialize_number_or_zero cast parse (signed v) = v
  deserialize_number_or_zero cast parse (unsigned v) = as_i64 v
  deserialize_number_or_zero cast parse (float v) = cast v
  deserialize_number_or_zero cast parse (string v) = unwrap_or (pos 0) (parse v)
