-- ===== src/Okx/Client/Reports.antt =====
-- What the messages of an OKX connection do to the status map.
use cryptomeria.Common.{
  ℕ, List, [], ◌∷◌, false, Option, none, some, String, ◌≡◌, refl, sym, subst, ◌∙◌,
}
use cryptomeria.Common.Result.{Result, ok, err}
use cryptomeria.Dict.{text_key}
use cryptomeria.Float.{Float}
use cryptomeria.Persistence.{Ingress}
use cryptomeria.Metrics.{BookView}
use cryptomeria.Status.{status_key}
use cryptomeria.Client.{Client, Clock, Numerals, count_message, set_last_price, key_of, show_book}
use cryptomeria.Client.Status.{
  status_of, status_of-set_last_price, status_of-show_book, status_of-on_trade,
}
use cryptomeria.Client.Settings.{Settings, settings, settings-on_trade}
use cryptomeria.Okx.Types.{
  OkxWsMessage, MessageType, TradeData, message_type, l2_snapshot, l2_update, l2, trade,
  event_message, unknown,
}
use cryptomeria.Okx.Client.{
  Serde, Link, persist, after_rows, price_if, persist_rows, dispatch, on_message, on_messages,
  on_first_trade,
}
use cryptomeria.Okx.Client.Books.{settings-dispatch, settings-on_message}

module _ {ℓ κ μ ν} {F : Type ℓ} {V : Type κ} {S : Type μ} {B : Type ν} ⦃f : Float F⦄
    (serde : Serde F V) (questdb : Ingress S B F) (numerals : Numerals F) (other : String) where
  -- The key is another client's.
  abbrev IsOther : Settings F → Type 0
  IsOther s = text_key.same (status_key s.cli_instrument s.exchange) other ≡ false

  other-set_last_price :
      (now : ℕ) (price : F) (client : Client F S)
      → IsOther (settings client)
      → status_of other (set_last_price now price client) ≡ status_of other client
  other-set_last_price now price client h =
      rw (status_of-set_last_price other now price client) (rw h refl)

  other-price_if :
      (now : ℕ) (price : Option F) (client : Client F S)
      → IsOther (settings client)
      → status_of other (price_if serde questdb now price client) ≡ status_of other client
  other-price_if now none client h = refl
  other-price_if now (some price) client h = other-set_last_price now price client h

  other-after_rows :
      (now : ℕ) (msg : OkxWsMessage V) (client : Client F S) (r : Result (Unit {0}) × S)
      → IsOther (settings client)
      → status_of other (after_rows serde questdb now msg client r) ≡ status_of other client
  other-after_rows now msg client (ok u, s) h = other-price_if now _ _ h
  other-after_rows now msg client (err e, s) h = refl

  other-persist :
      (now : ℕ) (msg : OkxWsMessage V) (client : Client F S)
      → IsOther (settings client)
      → status_of other (persist serde questdb now msg client) ≡ status_of other client
  unfolding persist
  other-persist now msg client h = go client.sender
    where
      go :
          (sender : Option S)
          → status_of other (elim sender as (λ s. Client F S) [
            | none ↦ client
            | some s ↦ after_rows serde questdb now msg client (
                persist_rows serde questdb client.exchange client.cli_instrument msg
                  (message_type msg)
                  s)
          ])
            ≡ status_of other client
      go none = refl
      go (some s) = other-after_rows now msg client _ h

  other-show_book :
      (clock : Clock) (view : BookView F) (client : Client F S)
      → IsOther (settings client)
      → status_of other (show_book numerals clock view client) ≡ status_of other client
  other-show_book clock view client h =
      rw (status_of-show_book numerals other clock view client) (rw h refl)

  other-on_first_trade :
      (clock : Clock) (t : Option TradeData) (link : Link F S)
      → IsOther (settings link.client)
      → status_of other (on_first_trade serde questdb numerals clock t link).client
        ≡ status_of other link.client
  other-on_first_trade clock none link h = refl
  other-on_first_trade clock (some t) link h =
      other-price_if clock.millis _ _
        (subst IsOther (sym (settings-on_trade numerals clock link.client link.rate)) h)
      ∙ status_of-on_trade numerals other clock link.client link.rate

  other-dispatch :
      (clock : Clock) (type : MessageType) (msg : OkxWsMessage V) (link : Link F S)
      → IsOther (settings link.client)
      → status_of other (dispatch serde questdb numerals clock type msg link).client
        ≡ status_of other link.client
  unfolding dispatch
  other-dispatch clock l2_snapshot msg link h = other-show_book clock _ link.client h
  other-dispatch clock l2_update msg link h = other-show_book clock _ link.client h
  other-dispatch clock l2 msg link h = other-show_book clock _ link.client h
  other-dispatch clock trade msg link h = other-on_first_trade clock _ link h
  other-dispatch clock event_message msg link h = other-on_first_trade clock _ link h
  other-dispatch clock unknown msg link h = other-on_first_trade clock _ link h

  other-on_message :
      (clock : Clock) (msg : OkxWsMessage V) (link : Link F S)
      → IsOther (settings link.client)
      → status_of other (on_message serde questdb numerals clock msg link).client
        ≡ status_of other link.client
  unfolding on_message count_message
  other-on_message clock msg link h =
      other-persist clock.millis msg _ (
        subst IsOther
          (sym (settings-dispatch serde questdb numerals clock (message_type msg) msg _)) h)
      ∙ other-dispatch clock (message_type msg) msg _ h

  -- Whatever messages an OKX client handles, it leaves the status of every other client, which stands
  -- under another key than its own, as it was.
  pub on_messages-other_status :
      (ms : List (Clock × OkxWsMessage V)) (link : Link F S)
      → text_key.same (key_of link.client) other ≡ false
      → status_of other (on_messages serde questdb numerals ms link).client
        ≡ status_of other link.client
  unfolding on_messages
  on_messages-other_status [] link h = refl
  on_messages-other_status ((clock, msg) ∷ ms) link h =
      on_messages-other_status ms (on_message serde questdb numerals clock msg link)
        (subst IsOther (sym (settings-on_message serde questdb numerals clock msg link)) h)
      ∙ other-on_message clock msg link h
