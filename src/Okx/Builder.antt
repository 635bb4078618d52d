-- ===== src/Okx/Builder.antt =====
-- The trait ExchangeClientBuilder at the client of rs/src/okx/ws.rs.
use cryptomeria.Client
use cryptomeria.Client.{Client}
use cryptomeria.Metrics.{LobMetrics}
use cryptomeria.Status.{StatusMap}
use cryptomeria.Traits.Builder.{ExchangeClientBuilder, default_with_snapshot_depth}

unfoldable pub builder {ℓ κ} :
    {F : Type ℓ} {S : Type κ} → ExchangeClientBuilder (Client F S) S (LobMetrics F) (StatusMap F)
builder = record {
  with_sender = Client.with_sender;
  with_retention_window = Client.with_retention_window;
  with_metrics_port = Client.with_metrics_port;
  with_data_output = Client.with_data_output;
  with_cli_instrument = Client.with_cli_instrument;
  with_lob_metrics = Client.with_lob_metrics;
  with_status_handle = Client.with_status_handle;
  with_snapshot_depth = default_with_snapshot_depth;
  with_max_level = Client.with_max_level;
}
