-- ===== src/Bitstamp/Run/Marks.antt =====
-- The messages of Bitstamp leave what a status says of the connection as it is.
use cryptomeria.Common.{
  ℕ, Bool, true, false, Option, none, some, String, ◌≡◌, refl, ◌∙◌, if◌then◌else◌,
}
use cryptomeria.Common.Result.{Result, ok, err}
use cryptomeria.Float.{Float}
use cryptomeria.Persistence.{Ingress}
use cryptomeria.Client.{Client, Clock, Numerals, count_message}
use cryptomeria.Client.Marks.{
  marks_of, marks_of-set_last_price, marks_of-show_book, marks_of-on_trade,
}
use cryptomeria.Bitstamp.Types.{
  BitstampWsMessage, MessageType, OrderBookData, message_type, l2_snapshot, l2_update, trade,
  event_message, unknown,
}
use cryptomeria.Bitstamp.Session.{is_due}
use cryptomeria.Bitstamp.Client.{
  Reading, Link, persist_rows, price_if, after_rows, persist, early, late, fetch, fetch_when_due,
  stored, on_message,
}

module _ {ℓ κ μ ν} {F : Type ℓ} {V : Type κ} {S : Type μ} {B : Type ν} ⦃f : Float F⦄
    (reading : Reading F V) (questdb : Ingress S B F) (numerals : Numerals F) (key : String) where
  marks_of-price_if :
      (now : ℕ) (price : Option F) (client : Client F S)
      → marks_of key (price_if reading questdb now price client) ≡ marks_of key client
  marks_of-price_if now none client = refl
  marks_of-price_if now (some price) client = marks_of-set_last_price key now price client

  marks_of-after_rows :
      (now : ℕ) (msg : BitstampWsMessage V) (client : Client F S) (r : Result (Unit {0}) × S)
      → marks_of key (after_rows reading questdb now msg client r) ≡ marks_of key client
  marks_of-after_rows now msg client (ok u, s) = marks_of-price_if now _ _
  marks_of-after_rows now msg client (err e, s) = refl

  marks_of-persist :
      (now : ℕ) (msg : BitstampWsMessage V) (client : Client F S)
      → marks_of key (persist reading questdb now msg client) ≡ marks_of key client
  unfolding persist
  marks_of-persist now msg client = go client.sender
    where
      go :
          (sender : Option S)
          → marks_of key (elim sender as (λ s. Client F S) [
            | none ↦ client
            | some s ↦ after_rows reading questdb now msg client (
                persist_rows reading questdb client.exchange client.cli_instrument msg
                  (message_type msg)
                  s)
          ])
            ≡ marks_of key client
      go none = refl
      go (some s) = marks_of-after_rows now msg client _

  marks_of-early :
      (clock : Clock) (type : MessageType) (msg : BitstampWsMessage V) (link : Link F V S)
      → marks_of key (early reading questdb numerals clock type msg link).client
        ≡ marks_of key link.client
  unfolding early
  marks_of-early clock trade msg link =
      marks_of-price_if clock.millis _ _
      ∙ marks_of-persist clock.millis msg _
      ∙ marks_of-on_trade numerals key clock link.client link.rate
  marks_of-early clock l2_snapshot msg link = refl
  marks_of-early clock l2_update msg link = refl
  marks_of-early clock event_message msg link = refl
  marks_of-early clock unknown msg link = refl

  marks_of-late :
      (clock : Clock) (type : MessageType) (msg : BitstampWsMessage V) (link : Link F V S)
      → marks_of key (late reading questdb numerals clock type msg link).client
        ≡ marks_of key link.client
  unfolding late
  marks_of-late clock trade msg link =
      marks_of-price_if clock.millis _ _
      ∙ marks_of-on_trade numerals key clock link.client link.rate
  marks_of-late clock l2_snapshot msg link = marks_of-show_book numerals key clock _ link.client
  marks_of-late clock l2_update msg link = marks_of-show_book numerals key clock _ link.client
  marks_of-late clock event_message msg link = refl
  marks_of-late clock unknown msg link = refl

  marks_of-fetch_when_due :
      (clock : Clock) (fetched : Option OrderBookData) (link : Link F V S)
      → marks_of key (fetch_when_due reading questdb numerals clock fetched link).client
        ≡ marks_of key link.client
  unfolding fetch
  marks_of-fetch_when_due clock fetched link = go (is_due link.session) fetched
    where
      go :
          (b : Bool) (ob : Option OrderBookData)
          → marks_of key (if b then fetch reading questdb numerals clock ob link else link).client
            ≡ marks_of key link.client
      go true none = refl
      go true (some ob) = marks_of-show_book numerals key clock _ link.client
      go false ob = refl

  abbrev counting : Link F V S → Link F V S
  counting link = record link { client = count_message link.client }

  pub marks_of-on_message :
      (clock : Clock) (msg : BitstampWsMessage V) (fetched : Option OrderBookData)
      (link : Link F V S)
      → marks_of key (on_message reading questdb numerals clock msg fetched link).client
        ≡ marks_of key link.client
  unfolding on_message count_message
  marks_of-on_message clock msg fetched link = go link.session.snapshot_applied
    where
      go :
          (applied : Bool)
          → marks_of key
              (if applied
                then stored reading questdb numerals clock msg
                    (late reading questdb numerals clock (message_type msg) msg (counting link))
                else fetch_when_due reading questdb numerals clock fetched (
                    early reading questdb numerals clock
                      (message_type msg)
                      msg
                      (counting link))).client
            ≡ marks_of key link.client
      go true =
          marks_of-persist clock.millis msg _
          ∙ marks_of-late clock (message_type msg) msg (counting link)
      go false =
          marks_of-fetch_when_due clock fetched _
          ∙ marks_of-early clock (message_type msg) msg (counting link)
