-- ===== src/Bitstamp/Client.antt =====
-- The handling of a text message in the read loop of rs/src/bitstamp/ws.rs, and persist_message. What
-- it does to the book and the buffer is taken from Bitstamp.Session.
pub mod Unsent
pub mod Follows
use cryptomeria.Common.{
  ℕ, List, [], ◌∷◌, Bool, true, false, Option, none, some, String, map, first, is_empty,
  if◌then◌else◌,
}
use cryptomeria.Common.Int.{is_zero}
use cryptomeria.Common.Result.{Result, ok, err, Task, done}
use cryptomeria.Float.{Float}
use cryptomeria.Json.{and_then}
use cryptomeria.Migrate.{unwrap_or}
use cryptomeria.Book
use cryptomeria.Metrics.{BookView, book_view}
use cryptomeria.Okx.Types
use cryptomeria.Persistence
use cryptomeria.Persistence.{Ingress, persist_lob, persist_trade}
use cryptomeria.Client.{
  Client, Clock, Numerals, TradeRate, lob_filter, count_message, set_last_price, show_book,
  on_trade,
}
use cryptomeria.Bitstamp.Types.{
  BitstampWsMessage, MessageType, message_type, l2_snapshot, l2_update, trade, event_message,
  unknown, LobLevel, OrderBookData, TradeData, Times, lob_levels, timestamp_ms,
}
use cryptomeria.Bitstamp.Lob.{OrderBook}
use cryptomeria.Bitstamp.Session.{Session, Serde, hold, is_due, after_fetch, live}

-- Besides what the session reads: a `TradeData`, the readers of a time, and the text of a u64.
pub record Reading {ℓ κ} (F : Type ℓ) (V : Type κ) : Type (ℓ ⊔ κ) where
  pub serde : Serde V
  pub trade_of : V → Option TradeData
  pub times : Times F
  pub show_u64 : ℕ → String

-- What the read loop keeps for one connection, with the client.
pub record Link {ℓ κ μ} (F : Type ℓ) (V : Type κ) (S : Type μ) : Type (ℓ ⊔ κ ⊔ μ) where
  pub client : Client F S
  pub session : Session F V
  pub rate : TradeRate

abbrev pub okx_level : String × LobLevel → String × Types.LobLevel
okx_level (side, bl) =
    (side, record { price = bl.price; size = bl.size; count = "0"; orders = "0" })

module _ {ℓ} {F : Type ℓ} ⦃f : Float F⦄ where
  abbrev pub view : OrderBook F → BookView F
  view book = book_view (record { bids = book.bids; asks = book.asks })

  abbrev pub first_price : List (String × String) → Option F
  first_price levels = and_then (first levels) (λ l. f.parse l.0)

module _ {ℓ κ} {F : Type ℓ} {V : Type κ} ⦃f : Float F⦄ (reading : Reading F V) where
  abbrev pub trade_in : BitstampWsMessage V → Option TradeData
  trade_in msg = and_then msg.content reading.trade_of

  abbrev pub book_in : BitstampWsMessage V → Option OrderBookData
  book_in msg = and_then msg.content reading.serde.book_of

  abbrev pub message_ms : BitstampWsMessage V → ℕ
  message_ms msg =
      unwrap_or 0 (timestamp_ms reading.times reading.serde.entry_of reading.trade_of msg)

  abbrev pub db_trade : String → String → ℕ → TradeData → Persistence.TradeData F
  db_trade exchange cli_inst_id ts_ms t = record {
    inst_id = cli_inst_id;
    exchange = exchange;
    trade_id = reading.show_u64 t.id;
    px = unwrap_or f.nought (f.parse t.price);
    sz = unwrap_or f.nought (f.parse t.amount);
    side = if is_zero t.trade_type then "buy" else "sell";
    ts_ms = ts_ms;
  }

  module _ {μ ν} {S : Type μ} {B : Type ν} (questdb : Ingress S B F) where
    -- snapshots too are written as "update"
    unfoldable pub persist_levels : String → String → BitstampWsMessage V → Task S (Unit {0})
    persist_levels exchange cli_inst_id msg =
        let levels = lob_levels reading.serde.book_of reading.serde.entry_of msg in
        if is_empty levels
        then done tt
        else persist_lob questdb cli_inst_id exchange (message_ms msg) "update"
            (map okx_level levels) (and_then (book_in msg) (λ ob. first_price ob.bids))
            (and_then (book_in msg) (λ ob. first_price ob.asks))

    -- What persist_message writes to QuestDB.
    unfoldable pub persist_rows :
        String → String → BitstampWsMessage V → MessageType → Task S (Unit {0})
    persist_rows exchange cli_inst_id msg l2_snapshot = persist_levels exchange cli_inst_id msg
    persist_rows exchange cli_inst_id msg l2_update = persist_levels exchange cli_inst_id msg
    persist_rows exchange cli_inst_id msg trade = elim (trade_in msg) [
      | none ↦ done tt
      | some t ↦ persist_trade questdb (db_trade exchange cli_inst_id (message_ms msg) t)
    ]
    persist_rows exchange cli_inst_id msg _ = done tt

    -- The price that persist_message leaves in the status map, if its writes succeed.
    unfoldable pub persisted_price : BitstampWsMessage V → MessageType → Option F
    persisted_price msg trade =
        and_then (trade_in msg) (λ t. some (unwrap_or f.nought (f.parse t.price)))
    persisted_price msg _ = none

    abbrev pub price_if : ℕ → Option F → Client F S → Client F S
    price_if now none client = client
    price_if now (some price) client = set_last_price now price client

    abbrev pub after_rows :
        ℕ → BitstampWsMessage V → Client F S → Result (Unit {0}) × S → Client F S
    after_rows now msg client (ok u, s) =
        price_if now (persisted_price msg (message_type msg)) (record client { sender = some s })
    after_rows now msg client (err e, s) = record client { sender = some s }

    -- persist_message, where a sender is configured; its error is logged
    unfoldable pub persist : ℕ → BitstampWsMessage V → Client F S → Client F S
    persist now msg client = elim client.sender [
      | none ↦ client
      | some s ↦
          after_rows now msg client
            (persist_rows client.exchange client.cli_instrument msg (message_type msg) s)
    ]

    module _ (numerals : Numerals F) where
      abbrev pub counted : Clock → Link F V S → Link F V S
      counted clock link =
          let (client, rate) = on_trade numerals clock (link.client, link.rate) in
          record link { client = client; rate = rate }

      abbrev pub shown : Clock → Session F V → Client F S → Client F S
      shown clock session client = show_book numerals clock (view session.order_book) client

      -- Before the snapshot: a trade is counted and stored, and its price is shown if it parses.
      unfoldable pub early : Clock → MessageType → BitstampWsMessage V → Link F V S → Link F V S
      early clock trade msg link =
          let now = counted clock link in
          record now {
            client =
                price_if clock.millis (and_then (trade_in msg) (λ t. f.parse t.price))
                  (persist clock.millis msg now.client);
          }
      early clock type msg link = record link {
        session = hold reading.serde (lob_filter link.client) link.session type msg;
      }

      -- the snapshot, once the subscription is confirmed
      unfoldable pub fetch : Clock → Option OrderBookData → Link F V S → Link F V S
      fetch clock fetched link =
          let session = after_fetch reading.serde (lob_filter link.client) link.session fetched in
          elim fetched [
            | none ↦ record link { session = session }
            | some ob ↦ record link { session = session; client = shown clock session link.client }
          ]

      -- After it: the book is shown, a trade is counted, and its price is 0.0 if it does not parse.
      unfoldable pub late : Clock → MessageType → BitstampWsMessage V → Link F V S → Link F V S
      late clock trade msg link =
          let now = counted clock link in
          record now {
            client =
                price_if clock.millis
                  (and_then (trade_in msg) (λ t. some (unwrap_or f.nought (f.parse t.price))))
                  now.client;
          }
      late clock event_message msg link = link
      late clock unknown msg link = link
      late clock type msg link =
          let session = live reading.serde (lob_filter link.client) link.session type msg in
          record link { session = session; client = shown clock session link.client }

      abbrev pub fetch_when_due : Clock → Option OrderBookData → Link F V S → Link F V S
      fetch_when_due clock fetched link =
          let after = fetch clock fetched link in if is_due link.session then after else link

      abbrev pub stored : Clock → BitstampWsMessage V → Link F V S → Link F V S
      stored clock msg link = record link { client = persist clock.millis msg link.client }

      -- a parsed message, with the result of the REST request if this message brings one about
      unfoldable pub on_message :
          Clock → BitstampWsMessage V → Option OrderBookData → Link F V S → Link F V S
      on_message clock msg fetched link =
          let counting = record link { client = count_message link.client } in
          if link.session.snapshot_applied
          then stored clock msg (late clock (message_type msg) msg counting)
          else fetch_when_due clock fetched (early clock (message_type msg) msg counting)
