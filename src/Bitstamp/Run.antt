-- ===== src/Bitstamp/Run.antt =====
-- `run` of rs/src/bitstamp/ws.rs: the connection machine with the messages and the statuses of
-- Bitstamp. A message comes with what the REST request gives, if the message brings one about.
pub mod Marks
pub mod Healthy
use Prim.Native.String.{◌++◌ as ◌⊕◌}
use cryptomeria.Common.{ℕ, [], Bool, false, Option, String}
use cryptomeria.Float.{Float}
use cryptomeria.Persistence.{Ingress}
use cryptomeria.Client.{Client, Clock, Numerals, TradeRate, set_active}
use cryptomeria.Bitstamp.Types.{BitstampWsMessage, OrderBookData}
use cryptomeria.Bitstamp.Lob.{Layout, with_snapshot_depth}
use cryptomeria.Bitstamp.Session.{Session}
use cryptomeria.Bitstamp.Channels.{Letters, instrument_to_channel, diff_channel}
use cryptomeria.Bitstamp.Client
use cryptomeria.Bitstamp.Client.{Link, on_message}
use cryptomeria.Connection
use cryptomeria.Connection.{Wait, Exchange, Machine, Failure}

-- what is set up anew for each connection
pub record Reading {ℓ κ} (F : Type ℓ) (V : Type κ) : Type (ℓ ⊔ κ) where
  pub session : Session F V
  pub rate : TradeRate

module _ {ℓ κ} {F : Type ℓ} {V : Type κ} where
  abbrev pub new_session : Layout F → ℕ → Session F V
  new_session layout snapshot_depth = record {
    order_book = with_snapshot_depth layout snapshot_depth;
    buffer = [];
    subscription_confirmed = false;
    snapshot_attempted = false;
    snapshot_applied = false;
  }

-- `layouts` are the layouts of the maps of orders, one for each connection by the instant it is made.
module _ {ℓ κ μ ν} {F : Type ℓ} {V : Type κ} {S : Type μ} {B : Type ν} ⦃f : Float F⦄
    (show_u32 : ℕ → String) (letters : Letters) (snapshot_depth : ℕ) (layouts : ℕ → Layout F)
    (serdes : Client.Reading F V) (questdb : Ingress S B F) (numerals : Numerals F) where
  abbrev pub link_of : Client F S × Reading F V → Link F V S
  link_of (client, r) = record { client = client; session = r.session; rate = r.rate }

  abbrev pub handle :
      Clock
      → BitstampWsMessage V × Option OrderBookData
      → Client F S × Reading F V
      → Client F S × Reading F V
  handle clock (msg, fetched) at =
      let link = on_message serdes questdb numerals clock msg fetched (link_of at) in
      (link.client, record { session = link.session; rate = link.rate })

  abbrev pub on_refused : ℕ → ℕ → Client F S → Client F S
  on_refused now attempt client =
      set_active now false ("connect error, attempt " ⊕ show_u32 attempt) client

  abbrev pub bitstamp : Exchange F S (BitstampWsMessage V × Option OrderBookData) (Reading F V)
  bitstamp = record {
    on_refused = on_refused;
    connected_detail = λ url. "connected to " ⊕ url;
    subscribed_detail =
        λ s. "subscribed to " ⊕ diff_channel letters (instrument_to_channel letters s.instrument);
    begin = λ instant. record {
      session = new_session (layouts instant) snapshot_depth;
      rate = record { last_trade_count = 0; last_trade_time = instant };
    };
    handle = handle;
  }

  -- the rounds of the connection loop with this exchange
  unfoldable pub fail : String → Failure → Machine F S (Reading F V) → Machine F S (Reading F V)
  fail = Connection.fail show_u32 bitstamp

  unfoldable pub establish :
      String → ℕ → ℕ → ℕ → Machine F S (Reading F V) → Machine F S (Reading F V)
  establish = Connection.establish show_u32 bitstamp

  unfoldable pub lose : ℕ → Wait → Machine F S (Reading F V) → Machine F S (Reading F V)
  lose = Connection.lose show_u32 bitstamp
