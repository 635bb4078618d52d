-- ===== src/Okx/Client/Books.antt =====
-- The book of an OKX connection is what its book messages make of an empty one, whatever else the
-- client does.
use cryptomeria.Common.{
  ℕ, List, [], ◌∷◌, Bool, true, false, Option, none, some, ◌≡◌, refl, ap, ◌∙◌, if◌then◌else◌,
}
use cryptomeria.Common.Result.{Result, ok, err}
use cryptomeria.Float.{Float}
use cryptomeria.Traits.Filter.{LobFilter}
use cryptomeria.Book.{OrderBook}
use cryptomeria.Persistence.{Ingress}
use cryptomeria.Client.{
  Client, Clock, Numerals, count_message, set_last_price, on_status, lob_filter,
}
use cryptomeria.Client.Settings.{settings, settings-show_book, settings-on_trade, filter_of}
use cryptomeria.Okx.Types.{
  OkxWsMessage, MessageType, TradeData, message_type, l2_snapshot, l2_update, l2, trade,
  event_message, unknown,
}
use cryptomeria.Okx.Lob.{process_msg}
use cryptomeria.Okx.Client.{
  Serde, Link, persist, after_rows, price_if, persist_rows, dispatch, on_message, on_messages,
  on_first_trade,
}

abbrev pub is_book : MessageType → Bool
is_book l2_snapshot = true
is_book l2_update = true
is_book l2 = true
is_book _ = false

module _ {ℓ κ} {F : Type ℓ} {V : Type κ} ⦃f : Float F⦄ (serde : Serde F V) where
  -- The book that the messages of a book channel make, one after the other.
  abbrev pub book_of_messages :
      Option (LobFilter F) → OrderBook F → List (Clock × OkxWsMessage V) → OrderBook F
  book_of_messages filter book [] = book
  book_of_messages filter book ((clock, msg) ∷ rest) =
      book_of_messages filter
        (if is_book (message_type msg)
          then process_msg serde.json book msg.items msg.action filter
          else book)
        rest

  module _ {μ ν} {S : Type μ} {B : Type ν} (questdb : Ingress S B F) (numerals : Numerals F) where
    pub settings-price_if :
        (now : ℕ) (price : Option F) (client : Client F S)
        → settings (price_if serde questdb now price client) ≡ settings client
    unfolding set_last_price on_status
    settings-price_if now none client = refl
    settings-price_if now (some price) client = refl

    settings-after_rows :
        (now : ℕ) (msg : OkxWsMessage V) (client : Client F S) (r : Result (Unit {0}) × S)
        → settings (after_rows serde questdb now msg client r) ≡ settings client
    settings-after_rows now msg client (ok u, s) = settings-price_if now _ _
    settings-after_rows now msg client (err e, s) = refl

    settings-persist :
        (now : ℕ) (msg : OkxWsMessage V) (client : Client F S)
        → settings (persist serde questdb now msg client) ≡ settings client
    unfolding persist
    settings-persist now msg client = go client.sender
      where
        go :
            (sender : Option S)
            → settings (elim sender as (λ s. Client F S) [
              | none ↦ client
              | some s ↦ after_rows serde questdb now msg client (
                  persist_rows serde questdb client.exchange client.cli_instrument msg
                    (message_type msg)
                    s)
            ])
              ≡ settings client
        go none = refl
        go (some s) = settings-after_rows now msg client _

    pub settings-on_first_trade :
        (clock : Clock) (t : Option TradeData) (link : Link F S)
        → settings (on_first_trade serde questdb numerals clock t link).client
          ≡ settings link.client
    settings-on_first_trade clock none link = refl
    settings-on_first_trade clock (some t) link =
        settings-price_if clock.millis _ _ ∙ settings-on_trade numerals clock link.client link.rate

    pub settings-dispatch :
        (clock : Clock) (type : MessageType) (msg : OkxWsMessage V) (link : Link F S)
        → settings (dispatch serde questdb numerals clock type msg link).client
          ≡ settings link.client
    unfolding dispatch
    settings-dispatch clock l2_snapshot msg link = settings-show_book numerals clock _ link.client
    settings-dispatch clock l2_update msg link = settings-show_book numerals clock _ link.client
    settings-dispatch clock l2 msg link = settings-show_book numerals clock _ link.client
    settings-dispatch clock trade msg link = settings-on_first_trade clock _ link
    settings-dispatch clock event_message msg link = settings-on_first_trade clock _ link
    settings-dispatch clock unknown msg link = settings-on_first_trade clock _ link

    pub settings-on_message :
        (clock : Clock) (msg : OkxWsMessage V) (link : Link F S)
        → settings (on_message serde questdb numerals clock msg link).client ≡ settings link.client
    unfolding on_message count_message
    settings-on_message clock msg link =
        settings-persist clock.millis msg _ ∙ settings-dispatch clock (message_type msg) msg _

    order_book-on_first_trade :
        (clock : Clock) (t : Option TradeData) (link : Link F S)
        → (on_first_trade serde questdb numerals clock t link).order_book ≡ link.order_book
    order_book-on_first_trade clock none link = refl
    order_book-on_first_trade clock (some t) link = refl

    order_book-dispatch :
        (clock : Clock) (type : MessageType) (msg : OkxWsMessage V) (link : Link F S)
        → (dispatch serde questdb numerals clock type msg link).order_book ≡ (
            if is_book type
            then process_msg serde.json link.order_book msg.items msg.action
                (lob_filter link.client)
            else link.order_book)
    unfolding dispatch
    order_book-dispatch clock l2_snapshot msg link = refl
    order_book-dispatch clock l2_update msg link = refl
    order_book-dispatch clock l2 msg link = refl
    order_book-dispatch clock trade msg link = order_book-on_first_trade clock _ link
    order_book-dispatch clock event_message msg link = order_book-on_first_trade clock _ link
    order_book-dispatch clock unknown msg link = order_book-on_first_trade clock _ link

    pub order_book-on_message :
        (clock : Clock) (msg : OkxWsMessage V) (link : Link F S)
        → (on_message serde questdb numerals clock msg link).order_book ≡ (
            if is_book (message_type msg)
            then process_msg serde.json link.order_book msg.items msg.action
                (lob_filter link.client)
            else link.order_book)
    unfolding on_message count_message lob_filter
    order_book-on_message clock msg link = order_book-dispatch clock (message_type msg) msg _

    -- The filter of a client stays the one that its settings choose.
    lob_filter-on_message :
        (clock : Clock) (msg : OkxWsMessage V) (link : Link F S)
        → lob_filter (on_message serde questdb numerals clock msg link).client
          ≡ lob_filter link.client
    unfolding lob_filter
    lob_filter-on_message clock msg link = ap filter_of (settings-on_message clock msg link)

    -- After any messages, the book of an OKX connection is what its book messages alone make of the
    -- one it had, under the filter of the client: no trade, event, failed write or clock has a part.
    pub on_messages-order_book :
        (ms : List (Clock × OkxWsMessage V)) (link : Link F S)
        → (on_messages serde questdb numerals ms link).order_book
          ≡ book_of_messages (lob_filter link.client) link.order_book ms
    unfolding on_messages
    on_messages-order_book [] link = refl
    on_messages-order_book ((clock, msg) ∷ ms) link =
        on_messages-order_book ms (on_message serde questdb numerals clock msg link)
        ∙ ap
            (λ filter.
              book_of_messages filter (on_message serde questdb numerals clock msg link).order_book
                ms)
            (lob_filter-on_message clock msg link)
        ∙ ap (λ book. book_of_messages (lob_filter link.client) book ms)
            (order_book-on_message clock msg link)
