-- ===== src/Launch.antt =====
-- How `main` of rs/src/main.rs starts the clients: one for each resolved instrument, with the shared
-- gauges and the shared status map. The tasks run in parallel; here is what each begins with.
pub mod Entries
pub mod Table
pub mod Startup
use text.Mathlib.Text.{◌==◌ as str_eq}
use cryptomeria.Common.{ℕ, List, [], ◌∷◌, Bool, Option, none, some, String, if◌then◌else◌}
use cryptomeria.Dict.{insert, text_key}
use cryptomeria.Float.{Float}
use cryptomeria.Urls.{websocket_url}
use cryptomeria.Instruments.Resolve.{ResolvedInstrument}
use cryptomeria.Metrics.{LobMetrics}
use cryptomeria.Status.{StatusMap, status_key, starting}
use cryptomeria.Client.{
  Client, new_client, with_sender, with_retention_window, with_cli_instrument, with_max_level,
  with_lob_metrics, with_status_handle,
}

pub record CliArgs {ℓ} (F : Type ℓ) : Type ℓ where
  pub exchange : String
  pub instrument : String
  pub instruments : Option String
  pub max_level_pct : F
  pub max_level : Option ℕ
  pub questdb_conf : Option String
  pub retention_window : Option ℕ
  pub bitstamp_snapshot_depth : ℕ
  pub metrics_port : Option ℕ
  pub data_output : Bool
  pub list_instruments : Bool
  pub region : String

-- A client that runs. The one of Bitstamp also has the depth of its snapshots.
pub data Started {ℓ κ} (F : Type ℓ) (S : Type κ) : Type (ℓ ⊔ κ) where
  okx_client kraken_client : Client F S → Started F S
  bitstamp_client : Client F S → ℕ → Started F S

-- `if let Some(x) = given { client = set(x) }`
abbrev pub set_if {ℓ κ} : {A : Type ℓ} {C : Type κ} → (A → C → C) → Option A → C → C
set_if set none client = client
set_if set (some x) client = set x client

abbrev pub entry_key : ResolvedInstrument → String
entry_key ri = status_key ri.cli_inst_id ri.exchange

module _ {ℓ} {F : Type ℓ} ⦃f : Float F⦄ where
  -- each instrument gets its entry before its task is spawned
  unfoldable pub start_statuses : List ResolvedInstrument → StatusMap F → StatusMap F
  start_statuses [] map = map
  start_statuses (ri ∷ rest) map = start_statuses rest (insert (entry_key ri) starting map)

module _ {ℓ κ} {F : Type ℓ} {S : Type κ} (cli : CliArgs F) (questdb_conf : String)
    (shared_metrics : LobMetrics F) (status_handle : StatusMap F) where
  -- `registered` are the gauges that `new` makes for the client alone.
  unfoldable pub configure : LobMetrics F → Option S → ResolvedInstrument → Client F S
  configure registered sender ri = set_if with_max_level cli.max_level (
      set_if with_retention_window cli.retention_window (
        set_if with_sender sender (
          with_status_handle status_handle (
            with_lob_metrics shared_metrics (
              with_cli_instrument ri.cli_inst_id (
                new_client ri.symbol ri.exchange ri.region cli.max_level_pct cli.data_output
                  questdb_conf registered))))))

  abbrev pub by_exchange : String → Client F S → Started F S
  by_exchange exchange client =
      if str_eq exchange "kraken"
      then kraken_client client
      else if str_eq exchange "bitstamp"
      then bitstamp_client client cli.bitstamp_snapshot_depth
      else okx_client client

  -- The task of an instrument; `none` if it panics at the table of endpoints.
  unfoldable pub launch : LobMetrics F → Option S → ResolvedInstrument → Option (Started F S)
  launch registered sender ri = elim (websocket_url ri.region ri.exchange) [
    | none ↦ none
    | some ws_url ↦ some (by_exchange ri.exchange (configure registered sender ri))
  ]
