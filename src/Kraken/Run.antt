-- ===== src/Kraken/Run.antt =====
-- `run` of rs/src/kraken/ws.rs: the connection machine with the messages and the statuses of Kraken.
pub mod Marks
pub mod Healthy
use Prim.Native.String.{◌++◌ as ◌⊕◌}
use cryptomeria.Common.{ℕ, Bool, false, String}
use cryptomeria.Float.{Float}
use cryptomeria.Book.{OrderBook, new}
use cryptomeria.Persistence.{Ingress}
use cryptomeria.Client.{Client, Clock, Numerals, TradeRate, set_active}
use cryptomeria.Kraken.Types.{KrakenWsMessage}
use cryptomeria.Kraken.Client.{Serde, Link, on_message}
use cryptomeria.Connection
use cryptomeria.Connection.{Wait, Exchange, Machine, Failure}

-- what is set up anew for each connection
pub record Reading {ℓ} (F : Type ℓ) : Type ℓ where
  pub order_book : OrderBook F
  pub rate : TradeRate

module _ {ℓ κ μ ν} {F : Type ℓ} {V : Type κ} {S : Type μ} {B : Type ν} ⦃f : Float F⦄
    (show_u32 : ℕ → String) (serde : Serde F V) (questdb : Ingress S B F)
    (numerals : Numerals F) where
  abbrev pub link_of : Client F S × Reading F → Link F S
  link_of (client, r) = record { client = client; order_book = r.order_book; rate = r.rate }

  abbrev pub handle : Clock → KrakenWsMessage V → Client F S × Reading F → Client F S × Reading F
  handle clock msg at =
      let link = on_message serde numerals questdb clock msg (link_of at) in
      (link.client, record { order_book = link.order_book; rate = link.rate })

  abbrev pub on_refused : ℕ → ℕ → Client F S → Client F S
  on_refused now attempt client =
      set_active now false ("disconnected, attempt " ⊕ show_u32 attempt) client

  abbrev pub kraken : Exchange F S (KrakenWsMessage V) (Reading F)
  kraken = record {
    on_refused = on_refused;
    connected_detail = λ url. "connected to " ⊕ url;
    subscribed_detail = λ s. "subscribed to book " ⊕ s.instrument;
    begin = λ instant. record {
      order_book = new;
      rate = record { last_trade_count = 0; last_trade_time = instant };
    };
    handle = handle;
  }

  -- the rounds of the connection loop with this exchange
  unfoldable pub fail : String → Failure → Machine F S (Reading F) → Machine F S (Reading F)
  fail = Connection.fail show_u32 kraken

  unfoldable pub establish : String → ℕ → ℕ → ℕ → Machine F S (Reading F) → Machine F S (Reading F)
  establish = Connection.establish show_u32 kraken

  unfoldable pub lose : ℕ → Wait → Machine F S (Reading F) → Machine F S (Reading F)
  lose = Connection.lose show_u32 kraken
