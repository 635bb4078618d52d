-- ===== src/Tests/Startups.antt =====
-- A start of the program whose migrations fail.
use cryptomeria.Common.{[], ◌∷◌, true, false, none, some, String, ◌≡◌, refl, arith}
use cryptomeria.Common.Result.{ok, Task}
use cryptomeria.Float.Fixed.{Fixed, fixed_float}
use cryptomeria.Text.{contains_char, split, rsplit, trim_start, trim_end}
use cryptomeria.Persistence.{resolve_questdb_conf}
use cryptomeria.Persistence.Setup.{connect}
use cryptomeria.Instruments.Names.{Casing}
use cryptomeria.Instruments.Lists.{parse_instruments_list, read_parts, read_part}
use cryptomeria.Instruments.Resolve.{resolve_arguments}
use cryptomeria.Launch.{CliArgs}
use cryptomeria.Launch.Startup.{main, instruments_of}
use cryptomeria.Launch.Startup.Running.{HasStarted, main-HasStarted}
use cryptomeria.Tests.Migrations.{Plan, env}
use cryptomeria.Tests.Rows.{Kept}
use cryptomeria.Tests.Clients.{no_gauges}

abbrev casing : Casing
casing = record { to_lowercase = λ s. s; to_uppercase = λ s. s }

abbrev cli : CliArgs Fixed
cli = record {
  exchange = "okx";
  instrument = "BTC-USDT";
  instruments = some "BTC-USD@kraken,@bitstamp";
  max_level_pct = some 1_000;
  max_level = none;
  questdb_conf = some "http::addr=db:9000;";
  retention_window = none;
  bitstamp_snapshot_depth = 400;
  metrics_port = some 8_080;
  data_output = false;
  list_instruments = false;
  region = "europe";
}

abbrev connecting : String → Task Plan Kept
connecting conf w = (ok [], w)

-- the requests of the migrations are refused
abbrev refusing : Plan
refusing = false ∷ []

parsed :
    parse_instruments_list "BTC-USD@kraken,@bitstamp" "okx"
    ≡ ("BTC-USD", "kraken") ∷ ("BTC-USD", "bitstamp") ∷ []
unfolding parse_instruments_list read_parts read_part split rsplit trim_start trim_end contains_char
parsed = refl

named : ¬ (instruments_of cli casing [] ≡ [])
unfolding resolve_arguments
named e = ground (arith, parsed, e)

main-HasStarted_example :
    HasStarted cli casing [] env connecting no_gauges no_gauges true "http::addr=db:9000;"
      (instruments_of cli casing [])
      (main cli casing [] env connecting no_gauges no_gauges none refusing).0
unfolding connect resolve_questdb_conf
main-HasStarted_example =
    main-HasStarted cli casing [] env connecting no_gauges no_gauges none refusing refl named
