-- ===== src/Okx/Client.antt =====
-- The handling of a text message in the read loop of rs/src/okx/ws.rs, and persist_message.
pub mod Books
pub mod Prices
pub mod Reports
use cryptomeria.Common.{
  ℕ, List, [], ◌∷◌, Option, none, some, String, first, is_empty, if◌then◌else◌,
}
use cryptomeria.Common.Result.{Result, ok, err, Task, done}
use cryptomeria.Float.{Float}
use cryptomeria.Json.{Json, and_then}
use cryptomeria.Migrate.{unwrap_or}
use cryptomeria.Book.{OrderBook}
use cryptomeria.Metrics.{book_view}
use cryptomeria.Persistence
use cryptomeria.Persistence.{Ingress, persist_lob, persist_trade}
use cryptomeria.Client.{
  Client, Clock, Numerals, TradeRate, lob_filter, count_message, set_last_price, show_book,
  on_trade,
}
use cryptomeria.Okx.Types.{
  OkxWsMessage, MessageType, message_type, l2_snapshot, l2_update, l2, trade, event_message,
  unknown, LobLevel, LobData, TradeData, lob_snapshot, lob_update, lob_levels, timestamp_ms,
}
use cryptomeria.Okx.Lob.{process_msg}

-- `serde_json::from_value(..).ok()` at the two types, the accessors of a `Value`, and
-- `str::parse::<u64>().ok()`.
pub record Serde {ℓ κ} (F : Type ℓ) (V : Type κ) : Type (ℓ ⊔ κ) where
  pub json : Json F V
  pub lob_of : V → Option LobData
  pub trade_of : V → Option TradeData
  pub parse_u64 : String → Option ℕ

-- What the read loop keeps for one connection, with the client.
pub record Link {ℓ κ} (F : Type ℓ) (S : Type κ) : Type (ℓ ⊔ κ) where
  pub client : Client F S
  pub order_book : OrderBook F
  pub rate : TradeRate

module _ {ℓ κ} {F : Type ℓ} {V : Type κ} ⦃f : Float F⦄ (serde : Serde F V) where
  abbrev pub first_trade : OkxWsMessage V → Option TradeData
  first_trade msg = and_then (first msg.items) serde.trade_of

  -- `d.bids.first()?.price.parse::<f64>().ok()`
  abbrev pub first_price : List LobLevel → Option F
  first_price levels = and_then (first levels) (λ l. f.parse l.price)

  abbrev pub db_trade : String → String → ℕ → TradeData → Persistence.TradeData F
  db_trade exchange cli_inst_id ts_ms t = record {
    inst_id = cli_inst_id;
    exchange = exchange;
    trade_id = t.trade_id;
    px = unwrap_or f.nought (f.parse t.px);
    sz = unwrap_or f.nought (f.parse t.sz);
    side = t.side;
    ts_ms = ts_ms;
  }

  module _ {μ ν} {S : Type μ} {B : Type ν} (questdb : Ingress S B F) where
    unfoldable pub persist_levels :
        String → String → OkxWsMessage V → String → Option LobData → Task S (Unit {0})
    persist_levels exchange cli_inst_id msg action found =
        let levels = lob_levels serde.lob_of msg in
        if is_empty levels
        then done tt
        else persist_lob questdb cli_inst_id exchange
            (unwrap_or 0 (timestamp_ms serde.json serde.parse_u64 msg)) action levels
            (and_then found (λ d. first_price d.bids)) (and_then found (λ d. first_price d.asks))

    -- What persist_message writes to QuestDB.
    unfoldable pub persist_rows : String → String → OkxWsMessage V → MessageType → Task S (Unit {0})
    persist_rows exchange cli_inst_id msg l2_snapshot =
        persist_levels exchange cli_inst_id msg "snapshot" (lob_snapshot serde.lob_of msg)
    persist_rows exchange cli_inst_id msg l2_update =
        persist_levels exchange cli_inst_id msg "update" (lob_update serde.lob_of msg)
    persist_rows exchange cli_inst_id msg trade = elim (first_trade msg) [
      | none ↦ done tt
      | some t ↦ persist_trade questdb (
          db_trade exchange cli_inst_id (unwrap_or 0 (timestamp_ms serde.json serde.parse_u64 msg))
            t)
    ]
    persist_rows exchange cli_inst_id msg _ = done tt

    -- The price that persist_message leaves in the status map, if its writes succeed.
    unfoldable pub persisted_price : OkxWsMessage V → MessageType → Option F
    persisted_price msg trade =
        and_then (first_trade msg) (λ t. some (unwrap_or f.nought (f.parse t.px)))
    persisted_price msg _ = none

    abbrev pub price_if : ℕ → Option F → Client F S → Client F S
    price_if now none client = client
    price_if now (some price) client = set_last_price now price client

    abbrev pub after_rows : ℕ → OkxWsMessage V → Client F S → Result (Unit {0}) × S → Client F S
    after_rows now msg client (ok u, s) =
        price_if now (persisted_price msg (message_type msg)) (record client { sender = some s })
    after_rows now msg client (err e, s) = record client { sender = some s }

    -- persist_message, where a sender is configured; its error is logged
    unfoldable pub persist : ℕ → OkxWsMessage V → Client F S → Client F S
    persist now msg client = elim client.sender [
      | none ↦ client
      | some s ↦
          after_rows now msg client
            (persist_rows client.exchange client.cli_instrument msg (message_type msg) s)
    ]

    module _ (numerals : Numerals F) where
      abbrev pub on_book : Clock → OkxWsMessage V → Link F S → Link F S
      on_book clock msg link =
          let book =
            process_msg serde.json link.order_book msg.items msg.action (lob_filter link.client) in
          record link {
            order_book = book;
            client = show_book numerals clock (book_view book) link.client;
          }

      abbrev pub on_first_trade : Clock → Option TradeData → Link F S → Link F S
      on_first_trade clock none link = link
      on_first_trade clock (some t) link =
          let (client, rate) = on_trade numerals clock (link.client, link.rate) in
          record link { client = price_if clock.millis (f.parse t.px) client; rate = rate }

      -- the match on the type of the message
      unfoldable pub dispatch : Clock → MessageType → OkxWsMessage V → Link F S → Link F S
      dispatch clock l2_snapshot msg link = on_book clock msg link
      dispatch clock l2_update msg link = on_book clock msg link
      dispatch clock l2 msg link = on_book clock msg link
      dispatch clock trade msg link = on_first_trade clock (first_trade msg) link
      dispatch clock event_message msg link = on_first_trade clock (first_trade msg) link
      dispatch clock unknown msg link = on_first_trade clock (first_trade msg) link

      -- a parsed message; one that does not parse is only logged
      unfoldable pub on_message : Clock → OkxWsMessage V → Link F S → Link F S
      on_message clock msg link =
          let handled =
            dispatch clock (message_type msg) msg
              (record link { client = count_message link.client }) in
          record handled { client = persist clock.millis msg handled.client }

      unfoldable pub on_messages : List (Clock × OkxWsMessage V) → Link F S → Link F S
      on_messages [] link = link
      on_messages ((clock, msg) ∷ rest) link = on_messages rest (on_message clock msg link)
