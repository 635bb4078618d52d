-- ===== src/Okx/Run/Marks.antt =====
-- The messages of OKX leave what a status says of the connection as it is.
use cryptomeria.Common.{ℕ, Option, none, some, String, ◌≡◌, refl, ◌∙◌}
use cryptomeria.Common.Result.{Result, ok, err}
use cryptomeria.Float.{Float}
use cryptomeria.Persistence.{Ingress}
use cryptomeria.Client.{Client, Clock, Numerals, count_message}
use cryptomeria.Client.Marks.{
  marks_of, marks_of-set_last_price, marks_of-show_book, marks_of-on_trade,
}
use cryptomeria.Okx.Types.{
  OkxWsMessage, MessageType, TradeData, message_type, l2_snapshot, l2_update, l2, trade,
  event_message, unknown,
}
use cryptomeria.Okx.Client.{
  Serde, Link, persist, after_rows, price_if, persist_rows, dispatch, on_message, on_first_trade,
}

module _ {ℓ κ μ ν} {F : Type ℓ} {V : Type κ} {S : Type μ} {B : Type ν} ⦃f : Float F⦄
    (serde : Serde F V) (questdb : Ingress S B F) (numerals : Numerals F) (key : String) where
  marks_of-price_if :
      (now : ℕ) (price : Option F) (client : Client F S)
      → marks_of key (price_if serde questdb now price client) ≡ marks_of key client
  marks_of-price_if now none client = refl
  marks_of-price_if now (some price) client = marks_of-set_last_price key now price client

  marks_of-after_rows :
      (now : ℕ) (msg : OkxWsMessage V) (client : Client F S) (r : Result (Unit {0}) × S)
      → marks_of key (after_rows serde questdb now msg client r) ≡ marks_of key client
  marks_of-after_rows now msg client (ok u, s) = marks_of-price_if now _ _
  marks_of-after_rows now msg client (err e, s) = refl

  marks_of-persist :
      (now : ℕ) (msg : OkxWsMessage V) (client : Client F S)
      → marks_of key (persist serde questdb now msg client) ≡ marks_of key client
  unfolding persist
  marks_of-persist now msg client = go client.sender
    where
      go :
          (sender : Option S)
          → marks_of key (elim sender as (λ s. Client F S) [
            | none ↦ client
            | some s ↦ after_rows serde questdb now msg client (
                persist_rows serde questdb client.exchange client.cli_instrument msg
                  (message_type msg)
                  s)
          ])
            ≡ marks_of key client
      go none = refl
      go (some s) = marks_of-after_rows now msg client _

  marks_of-on_first_trade :
      (clock : Clock) (t : Option TradeData) (link : Link F S)
      → marks_of key (on_first_trade serde questdb numerals clock t link).client
        ≡ marks_of key link.client
  marks_of-on_first_trade clock none link = refl
  marks_of-on_first_trade clock (some t) link =
      marks_of-price_if clock.millis _ _
      ∙ marks_of-on_trade numerals key clock link.client link.rate

  marks_of-dispatch :
      (clock : Clock) (type : MessageType) (msg : OkxWsMessage V) (link : Link F S)
      → marks_of key (dispatch serde questdb numerals clock type msg link).client
        ≡ marks_of key link.client
  unfolding dispatch
  marks_of-dispatch clock l2_snapshot msg link = marks_of-show_book numerals key clock _ link.client
  marks_of-dispatch clock l2_update msg link = marks_of-show_book numerals key clock _ link.client
  marks_of-dispatch clock l2 msg link = marks_of-show_book numerals key clock _ link.client
  marks_of-dispatch clock trade msg link = marks_of-on_first_trade clock _ link
  marks_of-dispatch clock event_message msg link = marks_of-on_first_trade clock _ link
  marks_of-dispatch clock unknown msg link = marks_of-on_first_trade clock _ link

  pub marks_of-on_message :
      (clock : Clock) (msg : OkxWsMessage V) (link : Link F S)
      → marks_of key (on_message serde questdb numerals clock msg link).client
        ≡ marks_of key link.client
  unfolding on_message count_message
  marks_of-on_message clock msg link =
      marks_of-persist clock.millis msg _ ∙ marks_of-dispatch clock (message_type msg) msg _
