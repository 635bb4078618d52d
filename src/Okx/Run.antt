-- ===== src/Okx/Run.antt =====
-- `run` of rs/src/okx/ws.rs: the connection machine with the messages and the statuses of OKX.
pub mod Marks
pub mod Healthy
use Prim.Native.String.{◌++◌ as ◌⊕◌}
use cryptomeria.Common.{ℕ, String}
use cryptomeria.Float.{Float}
use cryptomeria.Book.{OrderBook, new}
use cryptomeria.Persistence.{Ingress}
use cryptomeria.Client.{Client, Clock, Numerals, TradeRate}
use cryptomeria.Client.Settings.{Settings}
use cryptomeria.Okx.Types.{OkxWsMessage}
use cryptomeria.Okx.Client.{Serde, Link, on_message}
use cryptomeria.Connection.{Exchange}

-- what is set up anew for each connection
pub record Reading {ℓ} (F : Type ℓ) : Type ℓ where
  pub order_book : OrderBook F
  pub rate : TradeRate

module _ {ℓ κ μ ν} {F : Type ℓ} {V : Type κ} {S : Type μ} {B : Type ν} ⦃f : Float F⦄
    (serde : Serde F V) (questdb : Ingress S B F) (numerals : Numerals F) where
  abbrev pub link_of : Client F S × Reading F → Link F S
  link_of (client, r) = record { client = client; order_book = r.order_book; rate = r.rate }

  abbrev pub handle : Clock → OkxWsMessage V → Client F S × Reading F → Client F S × Reading F
  handle clock msg at =
      let link = on_message serde questdb numerals clock msg (link_of at) in
      (link.client, record { order_book = link.order_book; rate = link.rate })

  -- A refused connection is only logged.
  abbrev pub okx : Exchange F S (OkxWsMessage V) (Reading F)
  okx = record {
    on_refused = λ now attempt client. client;
    connected_detail = λ url. "connected";
    subscribed_detail = λ s. "subscribed to books " ⊕ s.instrument;
    begin = λ instant. record {
      order_book = new;
      rate = record { last_trade_count = 0; last_trade_time = instant };
    };
    handle = handle;
  }
