-- ===== src/Bitstamp/Builder.antt =====
-- The struct of the client of rs/src/bitstamp/ws.rs, its builders, and the methods that write to its
-- gauges and to its status.
use cryptomeria.Common.{ℕ, Bool, Option, String}
use cryptomeria.Float.{Float}
use cryptomeria.Client
use cryptomeria.Client.{Client, Clock, Numerals}
use cryptomeria.Metrics.{LobMetrics, BookView}
use cryptomeria.Status.{StatusMap}
use cryptomeria.Traits.Builder.{ExchangeClientBuilder, default_with_snapshot_depth}
use cryptomeria.Bitstamp.Channels.{Letters, instrument_to_channel}

-- The fields that the other clients have are in `base`.
pub record BitstampClient {ℓ κ} (F : Type ℓ) (S : Type κ) : Type (ℓ ⊔ κ) where
  pub base : Client F S
  pub channel_instrument : String
  pub snapshot_depth : ℕ

module _ {ℓ κ} {F : Type ℓ} {S : Type κ} where
  abbrev on_base : (Client F S → Client F S) → BitstampClient F S → BitstampClient F S
  on_base change client = record client { base = change client.base }

  -- `registered` are the gauges that `new` registers
  unfoldable pub new :
      Letters → String → String → String → F → Bool → String → LobMetrics F → BitstampClient F S
  new letters instrument exchange region max_level_pct data_output questdb_conf registered =
      record {
        base =
            Client.new_client instrument exchange region max_level_pct data_output questdb_conf
              registered;
        channel_instrument = instrument_to_channel letters instrument;
        snapshot_depth = 400;
      }

  unfoldable pub with_sender : S → BitstampClient F S → BitstampClient F S
  with_sender x = on_base (Client.with_sender x)

  unfoldable pub with_retention_window : ℕ → BitstampClient F S → BitstampClient F S
  with_retention_window x = on_base (Client.with_retention_window x)

  unfoldable pub with_metrics_port : ℕ → BitstampClient F S → BitstampClient F S
  with_metrics_port x = on_base (Client.with_metrics_port x)

  unfoldable pub with_data_output : Bool → BitstampClient F S → BitstampClient F S
  with_data_output x = on_base (Client.with_data_output x)

  unfoldable pub with_cli_instrument : String → BitstampClient F S → BitstampClient F S
  with_cli_instrument x = on_base (Client.with_cli_instrument x)

  unfoldable pub with_max_level : ℕ → BitstampClient F S → BitstampClient F S
  with_max_level x = on_base (Client.with_max_level x)

  unfoldable pub with_lob_metrics : LobMetrics F → BitstampClient F S → BitstampClient F S
  with_lob_metrics x = on_base (Client.with_lob_metrics x)

  unfoldable pub with_status_handle : StatusMap F → BitstampClient F S → BitstampClient F S
  with_status_handle x = on_base (Client.with_status_handle x)

  unfoldable pub with_snapshot_depth : ℕ → BitstampClient F S → BitstampClient F S
  with_snapshot_depth depth client = record client { snapshot_depth = depth }

  -- The trait's method for the depth is not the one above: the impl leaves it to the trait.
  unfoldable pub builder : ExchangeClientBuilder (BitstampClient F S) S (LobMetrics F) (StatusMap F)
  builder = record {
    with_sender = with_sender;
    with_retention_window = with_retention_window;
    with_metrics_port = with_metrics_port;
    with_data_output = with_data_output;
    with_cli_instrument = with_cli_instrument;
    with_max_level = with_max_level;
    with_lob_metrics = with_lob_metrics;
    with_status_handle = with_status_handle;
    with_snapshot_depth = default_with_snapshot_depth;
  }

  unfoldable pub metrics : BitstampClient F S → LobMetrics F
  metrics client = Client.metrics client.base

  -- update_lob_metrics, with its second half for the status, and update_depth_metrics
  unfoldable pub show_book :
      Numerals F → Clock → BookView F → BitstampClient F S → BitstampClient F S
  show_book numerals clock view = on_base (Client.show_book numerals clock view)

  unfoldable pub update_last_price : ℕ → F → BitstampClient F S → BitstampClient F S
  update_last_price now price = on_base (Client.set_last_price now price)

  -- What `run` starts before its loop: a server for the gauges of a client that has its own, with a
  -- map of statuses that stays empty.
  unfoldable pub metrics_server : BitstampClient F S → Option (ℕ × LobMetrics F × StatusMap F)
  metrics_server client = Client.metrics_server client.base

module _ {ℓ κ} {F : Type ℓ} {S : Type κ} ⦃f : Float F⦄ where
  unfoldable pub update_status_active : ℕ → Bool → String → BitstampClient F S → BitstampClient F S
  update_status_active now active detail = on_base (Client.set_active now active detail)
