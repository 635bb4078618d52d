-- ===== src/Kraken/Run/Marks.antt =====
-- The messages of Kraken leave the settings of the client, and what its status says of the
-- connection, as they are, and its book is what its book messages make of it.
use cryptomeria.Common.{
  ℕ, Bool, true, false, Option, none, some, String, ◌≡◌, refl, ◌∙◌, arith, if◌then◌else◌,
}
use cryptomeria.Float.{Float}
use cryptomeria.Persistence.{Ingress}
use cryptomeria.Client.{
  Client, Clock, Numerals, count_message, set_last_price, on_status, lob_filter,
}
use cryptomeria.Client.Settings.{settings, settings-show_book, settings-on_trade}
use cryptomeria.Client.Marks.{
  marks_of, marks_of-set_last_price, marks_of-show_book, marks_of-on_trade,
}
use cryptomeria.Kraken.Types.{
  KrakenWsMessage, MessageType, TradeData, message_type, l2_snapshot, l2_update, l2, trade,
  heartbeat, status, event_message, unknown,
}
use cryptomeria.Kraken.Lob.{process_msg}
use cryptomeria.Kraken.Client.{Serde, Link, persist, with_price, dispatch, on_message, first_trade}

abbrev pub is_book : MessageType → Bool
is_book l2_snapshot = true
is_book l2_update = true
is_book l2 = true
is_book _ = false

module _ {ℓ κ μ} {F : Type ℓ} {V : Type κ} {S : Type μ} ⦃f : Float F⦄ (serde : Serde F V)
    (numerals : Numerals F) where
  settings-persist {ν} :
      {B : Type ν} (questdb : Ingress S B F) (msg : KrakenWsMessage V) (client : Client F S)
      → settings (persist serde questdb msg client) ≡ settings client
  unfolding persist
  settings-persist questdb msg client = ground arith

  settings-with_price :
      (now : ℕ) (t : Option (TradeData F)) (client : Client F S)
      → settings (with_price serde numerals now t client) ≡ settings client
  unfolding set_last_price on_status
  settings-with_price now none client = refl
  settings-with_price now (some t) client = refl

  settings-dispatch :
      (clock : Clock) (type : MessageType) (msg : KrakenWsMessage V) (link : Link F S)
      → settings (dispatch serde numerals clock type msg link).client ≡ settings link.client
  unfolding dispatch
  settings-dispatch clock l2_snapshot msg link = settings-show_book numerals clock _ link.client
  settings-dispatch clock l2_update msg link = settings-show_book numerals clock _ link.client
  settings-dispatch clock l2 msg link = settings-show_book numerals clock _ link.client
  settings-dispatch clock trade msg link =
      settings-with_price clock.millis (first_trade serde msg) _
      ∙ settings-on_trade numerals clock link.client link.rate
  settings-dispatch clock heartbeat msg link = refl
  settings-dispatch clock status msg link = refl
  settings-dispatch clock event_message msg link = refl
  settings-dispatch clock unknown msg link = refl

  pub settings-on_message {ν} :
      {B : Type ν} (questdb : Ingress S B F) (clock : Clock) (msg : KrakenWsMessage V)
      (link : Link F S)
      → settings (on_message serde numerals questdb clock msg link).client ≡ settings link.client
  unfolding on_message count_message
  settings-on_message questdb clock msg link =
      settings-persist questdb msg _ ∙ settings-dispatch clock (message_type msg) msg _

  marks_of-persist {ν} :
      {B : Type ν} (questdb : Ingress S B F) (key : String) (msg : KrakenWsMessage V)
      (client : Client F S)
      → marks_of key (persist serde questdb msg client) ≡ marks_of key client
  unfolding persist
  marks_of-persist questdb key msg client = ground arith

  marks_of-with_price :
      (key : String) (now : ℕ) (t : Option (TradeData F)) (client : Client F S)
      → marks_of key (with_price serde numerals now t client) ≡ marks_of key client
  marks_of-with_price key now none client = refl
  marks_of-with_price key now (some t) client = marks_of-set_last_price key now t.price client

  marks_of-dispatch :
      (key : String) (clock : Clock) (type : MessageType) (msg : KrakenWsMessage V)
      (link : Link F S)
      → marks_of key (dispatch serde numerals clock type msg link).client ≡ marks_of key link.client
  unfolding dispatch
  marks_of-dispatch key clock l2_snapshot msg link =
      marks_of-show_book numerals key clock _ link.client
  marks_of-dispatch key clock l2_update msg link =
      marks_of-show_book numerals key clock _ link.client
  marks_of-dispatch key clock l2 msg link = marks_of-show_book numerals key clock _ link.client
  marks_of-dispatch key clock trade msg link =
      marks_of-with_price key clock.millis (first_trade serde msg) _
      ∙ marks_of-on_trade numerals key clock link.client link.rate
  marks_of-dispatch key clock heartbeat msg link = refl
  marks_of-dispatch key clock status msg link = refl
  marks_of-dispatch key clock event_message msg link = refl
  marks_of-dispatch key clock unknown msg link = refl

  pub marks_of-on_message {ν} :
      {B : Type ν} (questdb : Ingress S B F) (key : String) (clock : Clock)
      (msg : KrakenWsMessage V) (link : Link F S)
      → marks_of key (on_message serde numerals questdb clock msg link).client
        ≡ marks_of key link.client
  unfolding on_message count_message
  marks_of-on_message questdb key clock msg link =
      marks_of-persist questdb key msg _ ∙ marks_of-dispatch key clock (message_type msg) msg _

  pub order_book-on_message {ν} :
      {B : Type ν} (questdb : Ingress S B F) (clock : Clock) (msg : KrakenWsMessage V)
      (link : Link F S)
      → (on_message serde numerals questdb clock msg link).order_book ≡ (
          if is_book (message_type msg)
          then process_msg serde.json link.order_book msg.items msg.msg_type
              (lob_filter link.client)
          else link.order_book)
  unfolding on_message count_message lob_filter dispatch
  order_book-on_message questdb clock msg link = go (message_type msg)
    where
      go :
          (type : MessageType)
          → (dispatch serde numerals clock type msg
              (record link { client = count_message link.client })).order_book
            ≡ (if is_book type
                then process_msg serde.json link.order_book msg.items msg.msg_type
                    (lob_filter link.client)
                else link.order_book)
      go l2_snapshot = refl
      go l2_update = refl
      go l2 = refl
      go trade = refl
      go heartbeat = refl
      go status = refl
      go event_message = refl
      go unknown = refl
