-- ===== src/Bitstamp/Session.antt =====
-- The read loop of rs/src/bitstamp/ws.rs over one connection: diffs are buffered until the REST
-- snapshot is fetched, then those that it does not contain are replayed. What the loop shows,
-- counts or stores in QuestDB does not change the book and is left out.
pub mod Replay
use text.Mathlib.Text.{◌==◌ as str_eq}
use cryptomeria.Common.{
  ℕ, List, [], ◌∷◌, ◌++◌, Bool, true, false, ◌&&◌, not, Option, none, some, String, ltb, keep,
  if◌then◌else◌,
}
use cryptomeria.Float.{Float}
use cryptomeria.Traits.Filter.{LobFilter}
use cryptomeria.Bitstamp.Types.{
  BitstampWsMessage, OrderEntry, OrderBookData, MessageType, message_type, l2_snapshot, l2_update,
  event_message, microtimestamp_us,
}
use cryptomeria.Bitstamp.Lob.{OrderBook}
use cryptomeria.Bitstamp.Messages.{process_msg}

pub record Session {ℓ κ} (F : Type ℓ) (V : Type κ) : Type (ℓ ⊔ κ) where
  pub order_book : OrderBook F
  pub buffer : List (BitstampWsMessage V)
  pub subscription_confirmed : Bool
  pub snapshot_attempted : Bool
  pub snapshot_applied : Bool

-- What the loop calls and does not define: `from_value` at the three types, `to_value`, the parser
-- of a `u64`, and the channel that the connection subscribes to.
pub record Serde {κ} (V : Type κ) : Type κ where
  pub book_of : V → Option OrderBookData
  pub entry_of : V → Option OrderEntry
  pub trade_stamp : V → Option String
  pub to_value : OrderBookData → V
  pub parse_u64 : String → Option ℕ
  pub orders_channel : String

abbrev pub is_confirmation : Option String → Bool
is_confirmation none = false
is_confirmation (some e) = str_eq e "bts:subscription_succeeded"

-- the snapshot is fetched once for each connection, when the subscription is confirmed
abbrev pub is_due {ℓ κ} : {F : Type ℓ} {V : Type κ} → Session F V → Bool
is_due s = s.subscription_confirmed && (not s.snapshot_applied && not s.snapshot_attempted)

abbrev pub unwrap_or_zero : Option ℕ → ℕ
unwrap_or_zero none = 0
unwrap_or_zero (some n) = n

-- A diff without a microtimestamp is applied too.
abbrev pub is_newer_than : ℕ → Option ℕ → Bool
is_newer_than snapshot none = true
is_newer_than snapshot (some us) = ltb snapshot us

module _ {κ} {V : Type κ} (serde : Serde V) where
  abbrev pub stamp : BitstampWsMessage V → Option ℕ
  stamp msg = microtimestamp_us serde.book_of serde.trade_stamp serde.parse_u64 msg

  abbrev pub snapshot_msg : OrderBookData → BitstampWsMessage V
  snapshot_msg ob = record {
    event = some "snapshot";
    channel = some serde.orders_channel;
    content = some (serde.to_value ob);
  }

  abbrev pub snapshot_stamp : OrderBookData → ℕ
  snapshot_stamp ob = unwrap_or_zero (serde.parse_u64 ob.microtimestamp)

module _ {ℓ κ} {F : Type ℓ} {V : Type κ} ⦃f : Float F⦄ (serde : Serde V)
    (filter : Option (LobFilter F)) where
  abbrev pub process : OrderBook F → BitstampWsMessage V → OrderBook F
  process book msg = process_msg serde.book_of serde.entry_of book msg filter

  unfoldable pub replay : OrderBook F → List (BitstampWsMessage V) → OrderBook F
  replay book [] = book
  replay book (msg ∷ rest) = replay (process book msg) rest

  -- The book after a fetched snapshot and the buffered diffs.
  unfoldable pub reconcile : OrderBook F → List (BitstampWsMessage V) → OrderBookData → OrderBook F
  reconcile book buffer ob =
      replay (process book (snapshot_msg serde ob))
        (keep (λ msg. is_newer_than (snapshot_stamp serde ob) (stamp serde msg)) buffer)

  -- `fetched` is what the REST call gives, `none` if it or its parse fails: then the connection goes
  -- on without a snapshot.
  abbrev pub after_fetch : Session F V → Option OrderBookData → Session F V
  after_fetch s none = record s { snapshot_attempted = true; snapshot_applied = true }
  after_fetch s (some ob) = record s {
    order_book = reconcile s.order_book s.buffer ob;
    buffer = [];
    snapshot_attempted = true;
    snapshot_applied = true;
  }

  -- phase 1: the message itself
  abbrev pub hold : Session F V → MessageType → BitstampWsMessage V → Session F V
  hold s l2_update msg = record s { buffer = s.buffer ++ (msg ∷ []) }
  hold s event_message msg =
      if is_confirmation msg.event then record s { subscription_confirmed = true } else s
  hold s _ msg = s

  abbrev pub fetch_if_due : Session F V → Option OrderBookData → Session F V
  fetch_if_due s fetched = if is_due s then after_fetch s fetched else s

  -- phase 2
  abbrev pub live : Session F V → MessageType → BitstampWsMessage V → Session F V
  live s l2_snapshot msg = record s { order_book = process s.order_book msg }
  live s l2_update msg = record s { order_book = process s.order_book msg }
  live s _ msg = s

  -- a parsed text message, with the result of the fetch if this message brings one about
  unfoldable pub on_message : Session F V → BitstampWsMessage V → Option OrderBookData → Session F V
  on_message s msg fetched =
      if s.snapshot_applied
      then live s (message_type msg) msg
      else fetch_if_due (hold s (message_type msg) msg) fetched
