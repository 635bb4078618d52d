-- ===== src/Client.antt =====
-- What the structs of the three clients share (rs/src/okx/ws.rs, rs/src/kraken/ws.rs and
-- rs/src/bitstamp/ws.rs): their fields, the `with_` methods of `ExchangeClientBuilder`, the choice of
-- the filter, and how a message reaches the gauges and the status map. The `Arc`s are held here by
-- value: what other clients write under their own keys is not seen.
pub mod Settings
pub mod Counters
pub mod Status
pub mod Marks
use cryptomeria.Common.{
  ℕ, ◌+◌, ◌-◌, ◌%◌, ◌^◌, [], Bool, Option, none, some, String, leb, if◌then◌else◌,
}
use cryptomeria.Float.{Float}
use cryptomeria.Traits.Filter.{LobFilter}
use cryptomeria.Status.{
  StatusMap, status_key, with_handle, update_status_active, update_last_price, update_sizes,
}
use cryptomeria.Metrics.{
  LobMetrics, BookView, update_lob_metrics, update_depth_metrics, count_trade,
}

pub record Client {ℓ κ} (F : Type ℓ) (S : Type κ) : Type (ℓ ⊔ κ) where
  pub instrument : String
  pub exchange : String
  pub region : String
  pub cli_instrument : String
  pub max_level_pct : F
  pub max_level : Option ℕ
  pub messages_received : ℕ
  pub retention_window : Option ℕ
  pub metrics_port : Option ℕ
  pub data_output : Bool
  pub lob_metrics : LobMetrics F
  pub lob_metrics_override : Option (LobMetrics F)
  pub status_handle : Option (StatusMap F)
  pub questdb_conf : String
  pub sender : Option S

-- What the clients read of the two clocks while they handle one message: the milliseconds since the
-- epoch, a monotonic time in nanoseconds, and that time again where the count of trades restarts.
pub record Clock : Type 0 where
  pub millis : ℕ
  pub instant : ℕ
  pub restart : ℕ

-- Numbers as f64, a number of nanoseconds in seconds, and `format!("{:.2}", x)`.
pub record Numerals {ℓ} (F : Type ℓ) : Type ℓ where
  pub of_count : ℕ → F
  pub secs : ℕ → F
  pub two_decimals : F → String

-- The trades since the rate was last computed, and when that was.
pub record TradeRate : Type 0 where
  pub last_trade_count : ℕ
  pub last_trade_time : ℕ

abbrev pub set_rate {ℓ} : {F : Type ℓ} → F → LobMetrics F → LobMetrics F
set_rate rate lm = record lm { trades_per_second = rate }

module _ {ℓ κ} {F : Type ℓ} {S : Type κ} where
  -- the six arguments of `new`, and the gauges that it registers
  abbrev pub new_client : String → String → String → F → Bool → String → LobMetrics F → Client F S
  new_client instrument exchange region max_level_pct data_output questdb_conf registered = record {
    instrument = instrument;
    exchange = exchange;
    region = region;
    cli_instrument = "";
    max_level_pct = max_level_pct;
    max_level = none;
    messages_received = 0;
    retention_window = none;
    metrics_port = none;
    data_output = data_output;
    lob_metrics = registered;
    lob_metrics_override = none;
    status_handle = none;
    questdb_conf = questdb_conf;
    sender = none;
  }

  abbrev pub with_sender : S → Client F S → Client F S
  with_sender s client = record client { sender = some s }

  abbrev pub with_retention_window : ℕ → Client F S → Client F S
  with_retention_window hours client = record client { retention_window = some hours }

  abbrev pub with_metrics_port : ℕ → Client F S → Client F S
  with_metrics_port port client = record client { metrics_port = some port }

  abbrev pub with_data_output : Bool → Client F S → Client F S
  with_data_output enabled client = record client { data_output = enabled }

  abbrev pub with_cli_instrument : String → Client F S → Client F S
  with_cli_instrument inst_id client = record client { cli_instrument = inst_id }

  abbrev pub with_max_level : ℕ → Client F S → Client F S
  with_max_level max client = record client { max_level = some max }

  abbrev pub with_lob_metrics : LobMetrics F → Client F S → Client F S
  with_lob_metrics metrics client = record client { lob_metrics_override = some metrics }

  abbrev pub with_status_handle : StatusMap F → Client F S → Client F S
  with_status_handle handle client = record client { status_handle = some handle }

  -- What `run` starts before its loop: a server for the gauges of a client that has its own, with a
  -- map of statuses that no one writes to.
  unfoldable pub metrics_server : Client F S → Option (ℕ × LobMetrics F × StatusMap F)
  metrics_server client = elim client.lob_metrics_override [
    | some shared ↦ none
    | none ↦ elim client.metrics_port [
      | none ↦ none
      | some port ↦ some (port, client.lob_metrics, [])
    ]
  ]

  unfoldable pub metrics : Client F S → LobMetrics F
  metrics client = elim client.lob_metrics_override [
    | some shared ↦ shared
    | none ↦ client.lob_metrics
  ]

  -- a change of the gauges that `metrics` gives
  unfoldable pub on_metrics : (LobMetrics F → LobMetrics F) → Client F S → Client F S
  on_metrics change client = elim client.lob_metrics_override [
    | some shared ↦ record client { lob_metrics_override = some (change shared) }
    | none ↦ record client { lob_metrics = change client.lob_metrics }
  ]

  -- a change of the status map, if the client has one
  unfoldable pub on_status : (StatusMap F → StatusMap F) → Client F S → Client F S
  on_status change client = record client {
    status_handle = with_handle change client.status_handle;
  }

  abbrev pub key_of : Client F S → String
  key_of client = status_key client.cli_instrument client.exchange

  unfoldable pub lob_filter : Client F S → Option (LobFilter F)
  lob_filter client = elim client.max_level [
    | some max ↦ some (LobFilter.max_level max)
    | none ↦ some (LobFilter.max_level_pct client.max_level_pct)
  ]

  -- `fetch_add(1)` on an AtomicU64
  unfoldable pub count_message : Client F S → Client F S
  count_message client = record client {
    messages_received = (client.messages_received + 1) % 2 ^ 64;
  }

  unfoldable pub set_last_price : ℕ → F → Client F S → Client F S
  set_last_price now price client = on_status (update_last_price (key_of client) now price) client

  module _ (numerals : Numerals F) where
    -- update_lob_metrics and update_depth_metrics of a client
    unfoldable pub show_book : Clock → BookView F → Client F S → Client F S
    show_book clock view client =
        on_metrics
          (update_depth_metrics numerals.two_decimals client.exchange client.cli_instrument view)
          (on_status
            (update_sizes (key_of client) clock.millis view.view_bid_size view.view_ask_size)
            (on_metrics
              (update_lob_metrics client.exchange client.cli_instrument
                (numerals.of_count clock.millis) view)
              client))

module _ {ℓ κ} {F : Type ℓ} {S : Type κ} ⦃f : Float F⦄ where
  unfoldable pub set_active : ℕ → Bool → String → Client F S → Client F S
  set_active now active detail client =
      on_status (update_status_active (key_of client) now active detail) client

  module _ (numerals : Numerals F) where
    -- A trade is counted, and once in a second or more the rate is computed and the count restarts.
    unfoldable pub on_trade : Clock → Client F S × TradeRate → Client F S × TradeRate
    on_trade clock (client, rate) =
        let counted = on_metrics (count_trade client.exchange client.cli_instrument) client in
        let count = rate.last_trade_count + 1 in
        let elapsed = clock.instant - rate.last_trade_time in
        if leb 1_000_000_000 elapsed
        then (
          on_metrics (set_rate (f.div (numerals.of_count count) (numerals.secs elapsed))) counted,
          record { last_trade_count = 0; last_trade_time = clock.restart },
        )
        else (counted, record rate { last_trade_count = count })
