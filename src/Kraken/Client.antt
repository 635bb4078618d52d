-- ===== src/Kraken/Client.antt =====
-- The handling of a text message in the read loop of rs/src/kraken/ws.rs, and persist_message.
pub mod Trades
use cryptomeria.Common.{
  ℕ, List, [], ◌∷◌, Option, none, some, String, map, first, is_empty, if◌then◌else◌,
}
use cryptomeria.Common.Result.{Result, ok, err, Task, done}
use cryptomeria.Float.{Float}
use cryptomeria.Json.{Json, and_then}
use cryptomeria.Migrate.{unwrap_or}
use cryptomeria.Book.{OrderBook}
use cryptomeria.Metrics.{book_view}
use cryptomeria.Okx.Types
use cryptomeria.Persistence
use cryptomeria.Persistence.{Ingress, persist_lob, persist_trade}
use cryptomeria.Client.{
  Client, Clock, Numerals, TradeRate, lob_filter, count_message, set_last_price, show_book,
  on_trade,
}
use cryptomeria.Kraken.Types.{
  KrakenWsMessage, MessageType, message_type, l2_snapshot, l2_update, l2, trade, heartbeat, status,
  event_message, unknown, LobLevel, LobData, TradeData, Times, lob_snapshot, lob_update, lob_levels,
  timestamp_ms,
}
use cryptomeria.Kraken.Lob.{process_msg}

-- `serde_json::from_value(..).ok()` at the two types, the accessors of a `Value`, the readers of a
-- time, and `format!("{:.8}", x)`.
pub record Serde {ℓ κ} (F : Type ℓ) (V : Type κ) : Type (ℓ ⊔ κ) where
  pub json : Json F V
  pub lob_of : V → Option (LobData F)
  pub trade_of : V → Option (TradeData F)
  pub times : Times F
  pub eight_decimals : F → String

-- What the read loop keeps for one connection, with the client.
pub record Link {ℓ κ} (F : Type ℓ) (S : Type κ) : Type (ℓ ⊔ κ) where
  pub client : Client F S
  pub order_book : OrderBook F
  pub rate : TradeRate

module _ {ℓ κ} {F : Type ℓ} {V : Type κ} ⦃f : Float F⦄ (serde : Serde F V) where
  abbrev pub first_trade : KrakenWsMessage V → Option (TradeData F)
  first_trade msg = and_then (first msg.items) serde.trade_of

  abbrev pub first_price : List (LobLevel F) → Option F
  first_price levels = and_then (first levels) (λ l. some l.price)

  -- a level in the form that persist_lob takes
  abbrev pub okx_level : String × LobLevel F → String × Types.LobLevel
  okx_level (side, kl) = (
    side,
    record {
      price = serde.eight_decimals kl.price;
      size = serde.eight_decimals kl.qty;
      count = "0";
      orders = "0";
    },
  )

  abbrev pub db_trade : String → String → ℕ → TradeData F → Persistence.TradeData F
  db_trade exchange cli_inst_id ts_ms t = record {
    inst_id = cli_inst_id;
    exchange = exchange;
    trade_id = t.trade_id;
    px = t.price;
    sz = t.qty;
    side = t.side;
    ts_ms = ts_ms;
  }

  module _ {μ ν} {S : Type μ} {B : Type ν} (questdb : Ingress S B F) where
    unfoldable pub persist_levels :
        String → String → KrakenWsMessage V → String → Option (LobData F) → Task S (Unit {0})
    persist_levels exchange cli_inst_id msg action found =
        let okx_levels = map okx_level (lob_levels serde.lob_of msg) in
        if is_empty okx_levels
        then done tt
        else persist_lob questdb cli_inst_id exchange
            (unwrap_or 0 (timestamp_ms serde.json serde.times msg)) action okx_levels
            (and_then found (λ d. first_price d.bids)) (and_then found (λ d. first_price d.asks))

    unfoldable pub persist_message :
        String → String → KrakenWsMessage V → MessageType → Task S (Unit {0})
    persist_message exchange cli_inst_id msg l2_snapshot =
        persist_levels exchange cli_inst_id msg "snapshot" (lob_snapshot serde.lob_of msg)
    persist_message exchange cli_inst_id msg l2_update =
        persist_levels exchange cli_inst_id msg "update" (lob_update serde.lob_of msg)
    persist_message exchange cli_inst_id msg trade = elim (first_trade msg) [
      | none ↦ done tt
      | some t ↦
          persist_trade questdb (
            db_trade exchange cli_inst_id (unwrap_or 0 (timestamp_ms serde.json serde.times msg)) t)
    ]
    persist_message exchange cli_inst_id msg _ = done tt

    -- where a sender is configured; an error is logged
    unfoldable pub persist : KrakenWsMessage V → Client F S → Client F S
    persist msg client = elim client.sender [
      | none ↦ client
      | some s ↦
          let (result, s') =
            persist_message client.exchange client.cli_instrument msg (message_type msg) s in
          record client { sender = some s' }
    ]

  module _ {μ} {S : Type μ} (numerals : Numerals F) where
    abbrev pub on_book : Clock → KrakenWsMessage V → Link F S → Link F S
    on_book clock msg link =
        let book =
          process_msg serde.json link.order_book msg.items msg.msg_type (lob_filter link.client) in
        record link {
          order_book = book;
          client = show_book numerals clock (book_view book) link.client;
        }

    abbrev pub with_price : ℕ → Option (TradeData F) → Client F S → Client F S
    with_price now none client = client
    with_price now (some t) client = set_last_price now t.price client

    abbrev pub on_trade_message : Clock → KrakenWsMessage V → Link F S → Link F S
    on_trade_message clock msg link =
        let (client, rate) = on_trade numerals clock (link.client, link.rate) in
        record link { client = with_price clock.millis (first_trade msg) client; rate = rate }

    -- the match on the type of the message
    unfoldable pub dispatch : Clock → MessageType → KrakenWsMessage V → Link F S → Link F S
    dispatch clock l2_snapshot msg link = on_book clock msg link
    dispatch clock l2_update msg link = on_book clock msg link
    dispatch clock l2 msg link = on_book clock msg link
    dispatch clock trade msg link = on_trade_message clock msg link
    dispatch clock _ msg link = link

    -- a parsed message; one that does not parse is only logged
    unfoldable pub on_message {ν} :
        {B : Type ν} → Ingress S B F → Clock → KrakenWsMessage V → Link F S → Link F S
    on_message questdb clock msg link =
        let handled =
          dispatch clock (message_type msg) msg
            (record link { client = count_message link.client }) in
        record handled { client = persist questdb msg handled.client }

    unfoldable pub on_messages {ν} :
        {B : Type ν} → Ingress S B F → List (Clock × KrakenWsMessage V) → Link F S → Link F S
    on_messages questdb [] link = link
    on_messages questdb ((clock, msg) ∷ rest) link =
        on_messages questdb rest (on_message questdb clock msg link)
