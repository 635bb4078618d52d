-- ===== src/Client/Status.antt =====
-- How the operations of a client change what stands under a key of the status map.
use cryptomeria.Common.{ℕ, Option, String, ◌≡◌, arith, if◌then◌else◌}
use cryptomeria.Dict.{map_value, text_key}
use cryptomeria.Float.{Float}
use cryptomeria.Metrics.{LobMetrics, BookView}
use cryptomeria.Status.{ClientStatus, with_price, with_sizes}
use cryptomeria.Status.Isolation.{status_at, status_at-last_price, status_at-sizes}
use cryptomeria.Client.{
  Client, Clock, Numerals, TradeRate, on_metrics, on_status, set_last_price, show_book, on_trade,
  key_of,
}

module _ {ℓ κ} {F : Type ℓ} {S : Type κ} where
  -- What stands under a key in the status map of a client.
  abbrev pub status_of : String → Client F S → Option (ClientStatus F)
  status_of key client = status_at key client.status_handle

  status_handle-on_metrics :
      (change : LobMetrics F → LobMetrics F) (client : Client F S)
      → (on_metrics change client).status_handle ≡ client.status_handle
  unfolding on_metrics
  status_handle-on_metrics change client = ground arith

  pub status_of-set_last_price :
      (other : String) (now : ℕ) (price : F) (client : Client F S)
      → status_of other (set_last_price now price client) ≡ (
          if text_key.same (key_of client) other
          then map_value (with_price now price) (status_of other client)
          else status_of other client)
  unfolding set_last_price on_status
  status_of-set_last_price other now price client =
      status_at-last_price (key_of client) other now price client.status_handle

  pub status_of-show_book :
      (numerals : Numerals F) (other : String) (clock : Clock) (view : BookView F)
      (client : Client F S)
      → status_of other (show_book numerals clock view client) ≡ (
          if text_key.same (key_of client) other
          then map_value
              (with_sizes clock.millis view.view_bid_size view.view_ask_size)
              (status_of other client)
          else status_of other client)
  unfolding show_book on_status on_metrics
  status_of-show_book numerals other clock view client = ground (
    arith,
    status_at-sizes (key_of client) other clock.millis view.view_bid_size view.view_ask_size
        client.status_handle,
  )

  pub status_of-on_trade :
      ⦃f : Float F⦄ (numerals : Numerals F) (other : String) (clock : Clock) (client : Client F S)
      (rate : TradeRate)
      → status_of other (on_trade numerals clock (client, rate)).0 ≡ status_of other client
  unfolding on_trade on_metrics
  status_of-on_trade numerals other clock client rate = ground arith
