-- ===== src/Kraken/Client/Trades.antt =====
-- The gauge trades_total of a Kraken client counts the messages of the trade channel.
use cryptomeria.Common.{
  ℕ, suc, ◌+◌, ◌%◌, ◌^◌, ◌<◌, List, [], ◌∷◌, Bool, true, false, Option, none, some, ◌≡◌, refl, ◌∙◌,
  arith, if◌then◌else◌,
}
use cryptomeria.Float.{Float}
use cryptomeria.Metrics.{next_count}
use cryptomeria.Persistence.{Ingress}
use cryptomeria.Client.{Client, Clock, Numerals, count_message, metrics}
use cryptomeria.Client.Counters.{
  trades_of, trades_of-show_book, trades_of-set_last_price, trades_of-on_trade,
}
use cryptomeria.Kraken.Types.{
  KrakenWsMessage, MessageType, TradeData, message_type, l2_snapshot, l2_update, l2, trade,
  heartbeat, status, event_message, unknown,
}
use cryptomeria.Kraken.Client.{
  Serde, Link, persist, with_price, dispatch, on_message, on_messages, first_trade,
}

abbrev pub is_trade : MessageType → Bool
is_trade trade = true
is_trade _ = false

-- The number of messages of the trade channel.
abbrev pub trade_messages {ℓ} : {V : Type ℓ} → List (Clock × KrakenWsMessage V) → ℕ
trade_messages [] = 0
trade_messages ((clock, msg) ∷ rest) =
    let later = trade_messages rest in if is_trade (message_type msg) then suc later else later

counts_on :
    (counts : Bool) (before after later : ℕ)
    → before < 2 ^ 64
    → after ≡ (if counts then next_count before else before)
    → (after < 2 ^ 64)
      × ((after + later) % 2 ^ 64 ≡ (before + (if counts then suc later else later)) % 2 ^ 64)
counts_on true before after later small e = (omega arith, omega arith)
counts_on false before after later small e = (omega arith, omega arith)

module _ {ℓ κ μ} {F : Type ℓ} {V : Type κ} {S : Type μ} ⦃f : Float F⦄ (serde : Serde F V)
    (numerals : Numerals F) where
  trades_of-persist {ν} :
      {B : Type ν} (questdb : Ingress S B F) (msg : KrakenWsMessage V) (client : Client F S)
      → trades_of (persist serde questdb msg client) ≡ trades_of client
  unfolding persist metrics
  trades_of-persist questdb msg client = ground arith

  trades_of-with_price :
      (now : ℕ) (t : Option (TradeData F)) (client : Client F S)
      → trades_of (with_price serde numerals now t client) ≡ trades_of client
  trades_of-with_price now none client = refl
  trades_of-with_price now (some t) client = trades_of-set_last_price now t.price client

  trades_of-dispatch :
      (clock : Clock) (type : MessageType) (msg : KrakenWsMessage V) (link : Link F S)
      → trades_of (dispatch serde numerals clock type msg link).client
        ≡ (if is_trade type then next_count (trades_of link.client) else trades_of link.client)
  unfolding dispatch
  trades_of-dispatch clock l2_snapshot msg link = trades_of-show_book numerals clock _ link.client
  trades_of-dispatch clock l2_update msg link = trades_of-show_book numerals clock _ link.client
  trades_of-dispatch clock l2 msg link = trades_of-show_book numerals clock _ link.client
  trades_of-dispatch clock trade msg link =
      trades_of-with_price clock.millis (first_trade serde msg) _
      ∙ trades_of-on_trade numerals clock link.client link.rate
  trades_of-dispatch clock heartbeat msg link = refl
  trades_of-dispatch clock status msg link = refl
  trades_of-dispatch clock event_message msg link = refl
  trades_of-dispatch clock unknown msg link = refl

  trades_of-on_message {ν} :
      {B : Type ν} (questdb : Ingress S B F) (clock : Clock) (msg : KrakenWsMessage V)
      (link : Link F S)
      → trades_of (on_message serde numerals questdb clock msg link).client ≡ (
          if is_trade (message_type msg)
          then next_count (trades_of link.client)
          else trades_of link.client)
  unfolding on_message count_message metrics
  trades_of-on_message questdb clock msg link =
      trades_of-persist questdb msg _ ∙ trades_of-dispatch clock (message_type msg) msg _

  -- The gauge trades_total of a Kraken client, which counts below 2^64 and then from 0, grows by one for
  -- each message of the trade channel, whatever number of trades the message holds, and by nothing
  -- else.
  pub on_messages-trades_of {ν} :
      {B : Type ν} (questdb : Ingress S B F) (ms : List (Clock × KrakenWsMessage V))
      (link : Link F S)
      → trades_of link.client < 2 ^ 64
      → trades_of (on_messages serde numerals questdb ms link).client
        ≡ (trades_of link.client + trade_messages ms) % 2 ^ 64
  unfolding on_messages
  on_messages-trades_of questdb [] link small = omega arith
  on_messages-trades_of questdb ((clock, msg) ∷ ms) link small =
      let after = on_message serde numerals questdb clock msg link in
      let (fits, sum) =
        counts_on (is_trade (message_type msg)) (trades_of link.client) (trades_of after.client)
          (trade_messages ms) small (trades_of-on_message questdb clock msg link) in
      on_messages-trades_of questdb ms after fits ∙ sum
