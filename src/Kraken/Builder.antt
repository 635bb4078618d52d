-- ===== src/Kraken/Builder.antt =====
-- The struct of the client of rs/src/kraken/ws.rs, its builders, and the methods that write to its
-- gauges and to its status.
use cryptomeria.Common.{ℕ, Bool, Option, String}
use cryptomeria.Float.{Float}
use cryptomeria.Client
use cryptomeria.Client.{Client, Clock, Numerals}
use cryptomeria.Metrics.{LobMetrics, BookView}
use cryptomeria.Status.{StatusMap}
use cryptomeria.Traits.Builder.{ExchangeClientBuilder, default_with_snapshot_depth}

abbrev pub KrakenClient {ℓ κ} : Type ℓ → Type κ → Type (ℓ ⊔ κ)
KrakenClient F S = Client F S

module _ {ℓ κ} {F : Type ℓ} {S : Type κ} where
  -- `registered` are the gauges that `new` registers
  unfoldable pub new :
      String → String → String → F → Bool → String → LobMetrics F → KrakenClient F S
  new = Client.new_client

  unfoldable pub with_sender : S → KrakenClient F S → KrakenClient F S
  with_sender = Client.with_sender

  unfoldable pub with_retention_window : ℕ → KrakenClient F S → KrakenClient F S
  with_retention_window = Client.with_retention_window

  unfoldable pub with_metrics_port : ℕ → KrakenClient F S → KrakenClient F S
  with_metrics_port = Client.with_metrics_port

  unfoldable pub with_data_output : Bool → KrakenClient F S → KrakenClient F S
  with_data_output = Client.with_data_output

  unfoldable pub with_cli_instrument : String → KrakenClient F S → KrakenClient F S
  with_cli_instrument = Client.with_cli_instrument

  unfoldable pub with_max_level : ℕ → KrakenClient F S → KrakenClient F S
  with_max_level = Client.with_max_level

  unfoldable pub with_lob_metrics : LobMetrics F → KrakenClient F S → KrakenClient F S
  with_lob_metrics = Client.with_lob_metrics

  unfoldable pub with_status_handle : StatusMap F → KrakenClient F S → KrakenClient F S
  with_status_handle = Client.with_status_handle

  -- A depth for the snapshot is ignored: the impl leaves it to the trait.
  unfoldable pub builder : ExchangeClientBuilder (KrakenClient F S) S (LobMetrics F) (StatusMap F)
  builder = record {
    with_sender = with_sender;
    with_retention_window = with_retention_window;
    with_metrics_port = with_metrics_port;
    with_data_output = with_data_output;
    with_cli_instrument = with_cli_instrument;
    with_max_level = with_max_level;
    with_lob_metrics = with_lob_metrics;
    with_status_handle = with_status_handle;
    with_snapshot_depth = default_with_snapshot_depth;
  }

  unfoldable pub metrics : KrakenClient F S → LobMetrics F
  metrics client = Client.metrics client

  -- update_lob_metrics, with its second half for the status, and update_depth_metrics
  unfoldable pub show_book : Numerals F → Clock → BookView F → KrakenClient F S → KrakenClient F S
  show_book numerals clock view = Client.show_book numerals clock view

  unfoldable pub update_last_price : ℕ → F → KrakenClient F S → KrakenClient F S
  update_last_price now price = Client.set_last_price now price

  -- What `run` starts before its loop: a server for the gauges of a client that has its own, with a
  -- map of statuses that stays empty.
  unfoldable pub metrics_server : KrakenClient F S → Option (ℕ × LobMetrics F × StatusMap F)
  metrics_server client = Client.metrics_server client

module _ {ℓ κ} {F : Type ℓ} {S : Type κ} ⦃f : Float F⦄ where
  unfoldable pub update_status_active : ℕ → Bool → String → KrakenClient F S → KrakenClient F S
  update_status_active now active detail = Client.set_active now active detail
