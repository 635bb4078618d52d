-- ===== src/Okx/Client/Prices.antt =====
-- The last price that a trade message of OKX leaves in the status map.
use cryptomeria.Common.{
  sym, subst, ℕ, Bool, true, false, Option, none, some, String, ◌≡◌, refl, ap, ◌∙◌, arith,
  if◌then◌else◌,
}
use cryptomeria.Common.Result.{Result, ok, err}
use cryptomeria.Dict.{text_key, map_value}
use cryptomeria.Float.{Float}
use cryptomeria.Json.{and_then}
use cryptomeria.Migrate.{unwrap_or}
use cryptomeria.Persistence.{Ingress}
use cryptomeria.Status.{ClientStatus, with_price, status_key}
use cryptomeria.Status.Isolation.{same_key}
use cryptomeria.Client.{
  count_message, Client, Clock, Numerals, TradeRate, set_last_price, on_status, on_metrics, key_of,
  on_trade,
}
use cryptomeria.Client.Status.{status_of, status_of-set_last_price, status_of-on_trade}
use cryptomeria.Client.Settings.{Settings, settings-on_trade}
use cryptomeria.Okx.Types.{OkxWsMessage, TradeData, message_type, trade}
use cryptomeria.Okx.Client.{
  Serde, Link, persist, after_rows, price_if, persist_rows, persisted_price, dispatch, on_message,
  first_trade, on_first_trade,
}
use cryptomeria.Okx.Client.Books.{settings-on_first_trade}

module _ {ℓ μ} {F : Type ℓ} {S : Type μ} where
  -- The last price under the key of a client, if it has an entry.
  abbrev pub last_price_of : Client F S → Option (Option F)
  last_price_of client =
      and_then (status_of (key_of client) client) (λ status. some status.last_price)

  sender-on_trade :
      ⦃f : Float F⦄ (numerals : Numerals F) (clock : Clock) (client : Client F S) (rate : TradeRate)
      → (on_trade numerals clock (client, rate)).0.sender ≡ client.sender
  unfolding on_trade on_metrics
  sender-on_trade numerals clock client rate = ground arith

  last_price_of-set :
      (now : ℕ) (price : F) (client : Client F S) (old : Option F)
      → last_price_of client ≡ some old
      → last_price_of (set_last_price now price client) ≡ some (some price)
  unfolding set_last_price on_status
  last_price_of-set now price client old h =
      ap (λ o. and_then o (λ status. some status.last_price))
        (status_of-set_last_price (key_of client) now price client)
      ∙ rw (same_key (key_of client)) (go (status_of (key_of client) client) h)
    where
      go :
          (o : Option (ClientStatus F))
          → and_then o (λ status. some status.last_price) ≡ some old
          → and_then (map_value (with_price now price) o) (λ status. some status.last_price)
            ≡ some (some price)
      go none e = ground (arith, e)
      go (some status) e = refl

abbrev key_in {ℓ} : {F : Type ℓ} → Settings F → String
key_in s = status_key s.cli_instrument s.exchange

module _ {ℓ} {F : Type ℓ} ⦃f : Float F⦄ where
  -- A price that was read replaces the old one.
  abbrev pub override : Option F → Option F → Option F
  override none old = old
  override (some price) old = some price

  -- What the entry shows in the end: if the row of the trade was written, its price, which is 0.0 if
  -- the text of the price does not parse.
  abbrev pub settled : Bool → Option F → Option F → Option F
  settled true price old = some (unwrap_or f.nought price)
  settled false price old = override price old

module _ {ℓ κ μ ν} {F : Type ℓ} {V : Type κ} {S : Type μ} {B : Type ν} ⦃f : Float F⦄
    (serde : Serde F V) (questdb : Ingress S B F) where
  abbrev succeeded : Result (Unit {0}) × S → Bool
  succeeded (ok u, s) = true
  succeeded (err e, s) = false

  -- A sender is configured, and its writes for the message succeed.
  abbrev written_by : Option S → String → String → OkxWsMessage V → Bool
  written_by none exchange cli_inst_id msg = false
  written_by (some s) exchange cli_inst_id msg =
      succeeded (persist_rows serde questdb exchange cli_inst_id msg (message_type msg) s)

  abbrev pub is_written : Client F S → OkxWsMessage V → Bool
  is_written client msg = written_by client.sender client.exchange client.cli_instrument msg

module _ {ℓ κ μ ν} {F : Type ℓ} {V : Type κ} {S : Type μ} {B : Type ν} ⦃f : Float F⦄
    (serde : Serde F V) (questdb : Ingress S B F) (numerals : Numerals F) where
  price-price_if :
      (now : ℕ) (price : Option F) (client : Client F S) (old : Option F)
      → last_price_of client ≡ some old
      → last_price_of (price_if serde questdb now price client) ≡ some (override price old)
  price-price_if now none client old h = h
  price-price_if now (some price) client old h = last_price_of-set now price client old h

  price-on_trade :
      (clock : Clock) (client : Client F S) (rate : TradeRate)
      → last_price_of (on_trade numerals clock (client, rate)).0 ≡ last_price_of client
  price-on_trade clock client rate =
      ap
        (λ k.
          and_then (status_of k (on_trade numerals clock (client, rate)).0)
            (λ status. some status.last_price))
        (ap key_in (settings-on_trade numerals clock client rate))
      ∙ ap (λ o. and_then o (λ status. some status.last_price))
          (status_of-on_trade numerals (key_of client) clock client rate)

  price-on_first_trade :
      (clock : Clock) (t : TradeData) (link : Link F S) (old : Option F)
      → last_price_of link.client ≡ some old
      → last_price_of (on_first_trade serde questdb numerals clock (some t) link).client
        ≡ some (override (f.parse t.px) old)
  price-on_first_trade clock t link old h =
      price-price_if clock.millis (f.parse t.px) _ old
        (price-on_trade clock link.client link.rate ∙ h)

  sender-price_if :
      (now : ℕ) (price : Option F) (client : Client F S)
      → (price_if serde questdb now price client).sender ≡ client.sender
  unfolding set_last_price on_status
  sender-price_if now none client = refl
  sender-price_if now (some price) client = refl

  price-after_rows :
      (now : ℕ) (msg : OkxWsMessage V) (t : TradeData) (client : Client F S) (old : Option F)
      (r : Result (Unit {0}) × S)
      → persisted_price serde questdb msg (message_type msg)
        ≡ some (unwrap_or f.nought (f.parse t.px))
      → last_price_of client ≡ some old
      → last_price_of (after_rows serde questdb now msg client r)
        ≡ some (if succeeded serde questdb r then some (unwrap_or f.nought (f.parse t.px)) else old)
  price-after_rows now msg t client old (ok u, s) e h = rw e (
      price-price_if now (some (unwrap_or f.nought (f.parse t.px)))
        (record client { sender = some s }) old h)
  price-after_rows now msg t client old (err x, s) e h = h

  price-persist :
      (now : ℕ) (msg : OkxWsMessage V) (t : TradeData) (client : Client F S) (old : Option F)
      → persisted_price serde questdb msg (message_type msg)
        ≡ some (unwrap_or f.nought (f.parse t.px))
      → last_price_of client ≡ some old
      → last_price_of (persist serde questdb now msg client)
        ≡ some (
            if is_written serde questdb client msg
            then some (unwrap_or f.nought (f.parse t.px))
            else old)
  unfolding persist
  price-persist now msg t client old e h = go client.sender
    where
      go :
          (sender : Option S)
          → last_price_of (elim sender as (λ s. Client F S) [
            | none ↦ client
            | some s ↦ after_rows serde questdb now msg client (
                persist_rows serde questdb client.exchange client.cli_instrument msg
                  (message_type msg)
                  s)
          ])
            ≡ some (
                if written_by serde questdb sender client.exchange client.cli_instrument msg
                then some (unwrap_or f.nought (f.parse t.px))
                else old)
      go none = h
      go (some s) = price-after_rows now msg t client old _ e h

  written-on_first_trade :
      (clock : Clock) (t : TradeData) (msg : OkxWsMessage V) (link : Link F S)
      → is_written serde questdb
          (on_first_trade serde questdb numerals clock (some t) link).client
          msg
        ≡ is_written serde questdb link.client msg
  written-on_first_trade clock t msg link =
      let after = (on_first_trade serde questdb numerals clock (some t) link).client in
      ap (λ sender. written_by serde questdb sender after.exchange after.cli_instrument msg)
        (sender-price_if clock.millis (f.parse t.px) _
          ∙ sender-on_trade numerals clock link.client link.rate)
      ∙ ap (λ s. written_by serde questdb link.client.sender s.exchange s.cli_instrument msg)
          (settings-on_first_trade serde questdb numerals clock (some t) link)

  if-settled :
      (w : Bool) (price old : Option F)
      → (if w then some (unwrap_or f.nought price) else override price old) ≡ settled w price old
  if-settled true price old = refl
  if-settled false price old = refl

  on_handled :
      (now : ℕ) (msg : OkxWsMessage V) (t : TradeData) (client handled : Client F S)
      (old : Option F)
      → message_type msg ≡ trade
      → first_trade serde msg ≡ some t
      → last_price_of handled ≡ some (override (f.parse t.px) old)
      → is_written serde questdb handled msg ≡ is_written serde questdb client msg
      → last_price_of (persist serde questdb now msg handled)
        ≡ some (settled (is_written serde questdb client msg) (f.parse t.px) old)
  unfolding persisted_price
  on_handled now msg t client handled old e e' h w =
      price-persist now msg t handled (override (f.parse t.px) old) (rw (e, e') refl) h
      ∙ ap some (
          ap
            (λ b.
              if b then some (unwrap_or f.nought (f.parse t.px)) else override (f.parse t.px) old)
            w
          ∙ if-settled (is_written serde questdb client msg) (f.parse t.px) old)

  -- If the client has an entry in the status map, a trade message with a trade `t` leaves there: when
  -- a sender is configured and its writes succeed, the price of `t`, or 0.0 if its text is no number;
  -- otherwise the price of `t`, or the last price as it was if its text is no number.
  pub on_message-last_price :
      (clock : Clock) (msg : OkxWsMessage V) (t : TradeData) (link : Link F S) (old : Option F)
      → message_type msg ≡ trade
      → first_trade serde msg ≡ some t
      → last_price_of link.client ≡ some old
      → last_price_of (on_message serde questdb numerals clock msg link).client
        ≡ some (settled (is_written serde questdb link.client msg) (f.parse t.px) old)
  unfolding on_message dispatch count_message
  on_message-last_price clock msg t link old e e' h =
      let counted = record link { client = count_message link.client } in
      on_handled clock.millis msg t link.client _ old e e'
        (subst
          (λ type.
            last_price_of (dispatch serde questdb numerals clock type msg counted).client
            ≡ some (override (f.parse t.px) old))
          (sym e)
          (subst
            (λ found.
              last_price_of (on_first_trade serde questdb numerals clock found counted).client
              ≡ some (override (f.parse t.px) old))
            (sym e') (price-on_first_trade clock t counted old h)))
        (subst
          (λ type.
            is_written serde questdb (dispatch serde questdb numerals clock type msg counted).client
              msg
            ≡ is_written serde questdb link.client msg)
          (sym e)
          (subst
            (λ found.
              is_written serde questdb
                (on_first_trade serde questdb numerals clock found counted).client msg
              ≡ is_written serde questdb link.client msg)
            (sym e') (written-on_first_trade clock t msg counted)))
