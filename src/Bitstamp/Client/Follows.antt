-- ===== src/Bitstamp/Client/Follows.antt =====
-- The session of a Bitstamp connection goes on as Bitstamp.Session says, whatever else the client does.
use cryptomeria.Common.{ℕ, Bool, true, false, Option, none, some, ◌≡◌, refl, ap, ◌∙◌, if◌then◌else◌}
use cryptomeria.Common.Result.{Result, ok, err}
use cryptomeria.Float.{Float}
use cryptomeria.Persistence.{Ingress}
use cryptomeria.Client.{
  Client, Clock, Numerals, count_message, set_last_price, on_status, lob_filter,
}
use cryptomeria.Client.Settings.{settings, filter_of, settings-show_book, settings-on_trade}
use cryptomeria.Bitstamp.Types.{
  BitstampWsMessage, MessageType, OrderBookData, message_type, l2_snapshot, l2_update, trade,
  event_message, unknown,
}
use cryptomeria.Bitstamp.Session
use cryptomeria.Bitstamp.Session.{is_due, hold, live, fetch_if_due, after_fetch}
use cryptomeria.Bitstamp.Client.{
  Reading, Link, persist_rows, price_if, after_rows, persist, early, late, fetch, fetch_when_due,
  stored, on_message,
}

module _ {ℓ κ μ ν} {F : Type ℓ} {V : Type κ} {S : Type μ} {B : Type ν} ⦃f : Float F⦄
    (reading : Reading F V) (questdb : Ingress S B F) (numerals : Numerals F) where
  session-early :
      (clock : Clock) (type : MessageType) (msg : BitstampWsMessage V) (link : Link F V S)
      → (early reading questdb numerals clock type msg link).session
        ≡ hold reading.serde (lob_filter link.client) link.session type msg
  unfolding early
  session-early clock l2_snapshot msg link = refl
  session-early clock l2_update msg link = refl
  session-early clock trade msg link = refl
  session-early clock event_message msg link = refl
  session-early clock unknown msg link = refl

  session-late :
      (clock : Clock) (type : MessageType) (msg : BitstampWsMessage V) (link : Link F V S)
      → (late reading questdb numerals clock type msg link).session
        ≡ live reading.serde (lob_filter link.client) link.session type msg
  unfolding late
  session-late clock l2_snapshot msg link = refl
  session-late clock l2_update msg link = refl
  session-late clock trade msg link = refl
  session-late clock event_message msg link = refl
  session-late clock unknown msg link = refl

  session-fetch :
      (clock : Clock) (fetched : Option OrderBookData) (link : Link F V S)
      → (fetch reading questdb numerals clock fetched link).session
        ≡ after_fetch reading.serde (lob_filter link.client) link.session fetched
  unfolding fetch
  session-fetch clock none link = refl
  session-fetch clock (some ob) link = refl

  session-fetch_when_due :
      (clock : Clock) (fetched : Option OrderBookData) (link : Link F V S)
      → (fetch_when_due reading questdb numerals clock fetched link).session
        ≡ fetch_if_due reading.serde (lob_filter link.client) link.session fetched
  session-fetch_when_due clock fetched link = go (is_due link.session)
    where
      go :
          (b : Bool)
          → (if b then fetch reading questdb numerals clock fetched link else link).session ≡ (
              if b
              then after_fetch reading.serde (lob_filter link.client) link.session fetched
              else link.session)
      go true = session-fetch clock fetched link
      go false = refl

  settings-price_if :
      (now : ℕ) (price : Option F) (client : Client F S)
      → settings (price_if reading questdb now price client) ≡ settings client
  unfolding set_last_price on_status
  settings-price_if now none client = refl
  settings-price_if now (some price) client = refl

  settings-after_rows :
      (now : ℕ) (msg : BitstampWsMessage V) (client : Client F S) (r : Result (Unit {0}) × S)
      → settings (after_rows reading questdb now msg client r) ≡ settings client
  settings-after_rows now msg client (ok u, s) = settings-price_if now _ _
  settings-after_rows now msg client (err e, s) = refl

  settings-persist :
      (now : ℕ) (msg : BitstampWsMessage V) (client : Client F S)
      → settings (persist reading questdb now msg client) ≡ settings client
  unfolding persist
  settings-persist now msg client = go client.sender
    where
      go :
          (sender : Option S)
          → settings (elim sender as (λ s. Client F S) [
            | none ↦ client
            | some s ↦ after_rows reading questdb now msg client (
                persist_rows reading questdb client.exchange client.cli_instrument msg
                  (message_type msg)
                  s)
          ])
            ≡ settings client
      go none = refl
      go (some s) = settings-after_rows now msg client _

  settings-early :
      (clock : Clock) (type : MessageType) (msg : BitstampWsMessage V) (link : Link F V S)
      → settings (early reading questdb numerals clock type msg link).client ≡ settings link.client
  unfolding early
  settings-early clock trade msg link =
      settings-price_if clock.millis _ _
      ∙ settings-persist clock.millis msg _
      ∙ settings-on_trade numerals clock link.client link.rate
  settings-early clock l2_snapshot msg link = refl
  settings-early clock l2_update msg link = refl
  settings-early clock event_message msg link = refl
  settings-early clock unknown msg link = refl

  settings-late :
      (clock : Clock) (type : MessageType) (msg : BitstampWsMessage V) (link : Link F V S)
      → settings (late reading questdb numerals clock type msg link).client ≡ settings link.client
  unfolding late
  settings-late clock trade msg link =
      settings-price_if clock.millis _ _ ∙ settings-on_trade numerals clock link.client link.rate
  settings-late clock l2_snapshot msg link = settings-show_book numerals clock _ link.client
  settings-late clock l2_update msg link = settings-show_book numerals clock _ link.client
  settings-late clock event_message msg link = refl
  settings-late clock unknown msg link = refl

  settings-fetch_when_due :
      (clock : Clock) (fetched : Option OrderBookData) (link : Link F V S)
      → settings (fetch_when_due reading questdb numerals clock fetched link).client
        ≡ settings link.client
  unfolding fetch
  settings-fetch_when_due clock fetched link = go (is_due link.session) fetched
    where
      go :
          (b : Bool) (ob : Option OrderBookData)
          → settings (if b then fetch reading questdb numerals clock ob link else link).client
            ≡ settings link.client
      go true none = refl
      go true (some ob) = settings-show_book numerals clock _ link.client
      go false ob = refl

  abbrev counting : Link F V S → Link F V S
  counting link = record link { client = count_message link.client }

  abbrev step : Bool → Clock → BitstampWsMessage V → Option OrderBookData → Link F V S → Link F V S
  step applied clock msg fetched link =
      if applied
      then stored reading questdb numerals clock msg
          (late reading questdb numerals clock (message_type msg) msg (counting link))
      else fetch_when_due reading questdb numerals clock fetched
          (early reading questdb numerals clock (message_type msg) msg (counting link))

  settings-step :
      (applied : Bool) (clock : Clock) (msg : BitstampWsMessage V) (fetched : Option OrderBookData)
      (link : Link F V S)
      → settings (step applied clock msg fetched link).client ≡ settings link.client
  unfolding count_message
  settings-step true clock msg fetched link =
      settings-persist clock.millis msg _
      ∙ settings-late clock (message_type msg) msg (counting link)
  settings-step false clock msg fetched link =
      settings-fetch_when_due clock fetched _
      ∙ settings-early clock (message_type msg) msg (counting link)

  lob_filter-early :
      (clock : Clock) (type : MessageType) (msg : BitstampWsMessage V) (link : Link F V S)
      → lob_filter (early reading questdb numerals clock type msg link).client
        ≡ lob_filter link.client
  unfolding lob_filter
  lob_filter-early clock type msg link = ap filter_of (settings-early clock type msg link)

  session-step :
      (applied : Bool) (clock : Clock) (msg : BitstampWsMessage V) (fetched : Option OrderBookData)
      (link : Link F V S)
      → (step applied clock msg fetched link).session ≡ (
          if applied
          then live reading.serde (lob_filter link.client) link.session (message_type msg) msg
          else fetch_if_due reading.serde
              (lob_filter link.client)
              (hold reading.serde (lob_filter link.client) link.session (message_type msg) msg)
              fetched)
  unfolding count_message lob_filter
  session-step true clock msg fetched link =
      session-late clock (message_type msg) msg (counting link)
  session-step false clock msg fetched link =
      let after = early reading questdb numerals clock (message_type msg) msg (counting link) in
      session-fetch_when_due clock fetched after
      ∙ ap (λ filter. fetch_if_due reading.serde filter after.session fetched)
          (lob_filter-early clock (message_type msg) msg (counting link))
      ∙ ap (λ s. fetch_if_due reading.serde (lob_filter link.client) s fetched)
          (session-early clock (message_type msg) msg (counting link))

  pub settings-on_message :
      (clock : Clock) (msg : BitstampWsMessage V) (fetched : Option OrderBookData)
      (link : Link F V S)
      → settings (on_message reading questdb numerals clock msg fetched link).client
        ≡ settings link.client
  unfolding on_message
  settings-on_message clock msg fetched link =
      settings-step link.session.snapshot_applied clock msg fetched link

  pub session-on_message :
      (clock : Clock) (msg : BitstampWsMessage V) (fetched : Option OrderBookData)
      (link : Link F V S)
      → (on_message reading questdb numerals clock msg fetched link).session
        ≡ Session.on_message reading.serde (lob_filter link.client) link.session msg fetched
  unfolding on_message Session.on_message
  session-on_message clock msg fetched link =
      session-step link.session.snapshot_applied clock msg fetched link
