-- ===== src/Tests/Launches.antt =====
-- The endpoints, and the start of clients for named and other exchanges.
use cryptomeria.Common.{[], false, none, some, ◌≡◌, refl, String}
use cryptomeria.Dict.{get}
use cryptomeria.Float.Fixed.{Fixed, fixed_float}
use cryptomeria.Urls.{websocket_url, rest_url}
use cryptomeria.Instruments.Resolve.{ResolvedInstrument}
use cryptomeria.Launch.{CliArgs, launch, configure, bitstamp_client}
use cryptomeria.Tests.Rows.{Kept}
use cryptomeria.Tests.Clients.{no_gauges}

abbrev cli : CliArgs Fixed
cli = record {
  exchange = "okx";
  instrument = "BTC-USDT";
  instruments = none;
  max_level_pct = some 1_000;
  max_level = some 20;
  questdb_conf = none;
  retention_window = some 24;
  bitstamp_snapshot_depth = 400;
  metrics_port = none;
  data_output = false;
  list_instruments = false;
  region = "europe";
}

abbrev on_exchange : String → ResolvedInstrument
on_exchange exchange = record {
  symbol = "BTC/USD";
  exchange = exchange;
  cli_inst_id = "btcusd";
  region = "europe";
}

bitstamp_task :
    launch {S = Kept} cli "" no_gauges [] no_gauges (some []) (on_exchange "bitstamp")
    ≡ some (
        bitstamp_client
          (configure cli "" no_gauges [] no_gauges (some []) (on_exchange "bitstamp"))
          400)
unfolding launch websocket_url get
bitstamp_task = refl

-- a capital in the name is enough
no_client : launch {S = Kept} cli "" no_gauges [] no_gauges none (on_exchange "Kraken") ≡ none
unfolding launch websocket_url get
no_client = refl

rest_of_bitstamp : rest_url "global" "bitstamp" ≡ some "https://www.bitstamp.net/api/v2"
unfolding rest_url get
rest_of_bitstamp = refl

no_region : websocket_url "asia" "okx" ≡ none
unfolding websocket_url get
no_region = refl
