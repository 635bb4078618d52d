-- ===== src/Bitstamp/Client/Unsent.antt =====
-- What a Bitstamp client does not store.
use cryptomeria.Common.{
  Bool, true, false, Option, none, some, ◌≡◌, ◌≢◌, refl, ◌∙◌, arith, if◌then◌else◌,
}
use cryptomeria.Float.{Float}
use cryptomeria.Metrics.{BookView}
use cryptomeria.Persistence.{Ingress}
use cryptomeria.Client.{Client, Clock, Numerals, count_message, show_book, on_metrics, on_status}
use cryptomeria.Bitstamp.Types.{
  BitstampWsMessage, MessageType, OrderBookData, message_type, l2_snapshot, l2_update, trade,
  event_message, unknown,
}
use cryptomeria.Bitstamp.Session.{is_due}
use cryptomeria.Bitstamp.Client.{Reading, Link, early, fetch, fetch_when_due, on_message}

module _ {ℓ κ} {F : Type ℓ} {S : Type κ} where
  sender-show_book :
      (numerals : Numerals F) (clock : Clock) (view : BookView F) (client : Client F S)
      → (show_book numerals clock view client).sender ≡ client.sender
  unfolding show_book on_status on_metrics
  sender-show_book numerals clock view client = ground arith

module _ {ℓ κ μ ν} {F : Type ℓ} {V : Type κ} {S : Type μ} {B : Type ν} ⦃f : Float F⦄
    (reading : Reading F V) (questdb : Ingress S B F) (numerals : Numerals F) where
  sender-fetch :
      (clock : Clock) (fetched : Option OrderBookData) (link : Link F V S)
      → (fetch reading questdb numerals clock fetched link).client.sender ≡ link.client.sender
  unfolding fetch
  sender-fetch clock none link = refl
  sender-fetch clock (some ob) link = sender-show_book numerals clock _ link.client

  sender-early :
      (clock : Clock) (type : MessageType) (msg : BitstampWsMessage V) (link : Link F V S)
      → type ≢ trade
      → (early reading questdb numerals clock type msg link).client.sender ≡ link.client.sender
  unfolding early
  sender-early clock l2_snapshot msg link h = refl
  sender-early clock l2_update msg link h = refl
  sender-early clock trade msg link h = ground (arith, h refl)
  sender-early clock event_message msg link h = refl
  sender-early clock unknown msg link h = refl

  sender-fetch_when_due :
      (clock : Clock) (fetched : Option OrderBookData) (link : Link F V S)
      → (fetch_when_due reading questdb numerals clock fetched link).client.sender
        ≡ link.client.sender
  sender-fetch_when_due clock fetched link = go (is_due link.session)
    where
      go :
          (b : Bool)
          → (if b then fetch reading questdb numerals clock fetched link else link).client.sender
            ≡ link.client.sender
      go true = sender-fetch clock fetched link
      go false = refl

  -- Until the snapshot is applied, no message but a trade changes the sender: the diffs that are
  -- buffered are not stored, nor is the snapshot when it arrives.
  pub on_message-unsent :
      (clock : Clock) (msg : BitstampWsMessage V) (fetched : Option OrderBookData)
      (link : Link F V S)
      → link.session.snapshot_applied ≡ false
      → message_type msg ≢ trade
      → (on_message reading questdb numerals clock msg fetched link).client.sender
        ≡ link.client.sender
  unfolding on_message count_message
  on_message-unsent clock msg fetched link e h =
      rw e (sender-fetch_when_due clock fetched _ ∙ sender-early clock (message_type msg) msg _ h)
