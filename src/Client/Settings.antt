-- ===== src/Client/Settings.antt =====
-- What a client is told at its start stays as it is, whatever messages it handles.
use cryptomeria.Common.{ℕ, Option, none, some, String, ◌≡◌, refl, arith}
use cryptomeria.Float.{Float}
use cryptomeria.Metrics.{LobMetrics, BookView}
use cryptomeria.Traits.Filter.{LobFilter}
use cryptomeria.Client.{
  Client, Clock, Numerals, TradeRate, on_metrics, on_status, show_book, on_trade, lob_filter,
}

pub record Settings {ℓ} (F : Type ℓ) : Type ℓ where
  pub instrument : String
  pub region : String
  pub exchange : String
  pub cli_instrument : String
  pub max_level_pct : F
  pub max_level : Option ℕ

-- The filter is one of the settings.
abbrev pub filter_of {ℓ} : {F : Type ℓ} → Settings F → Option (LobFilter F)
filter_of s = elim s.max_level [
  | some max ↦ some (LobFilter.max_level max)
  | none ↦ some (LobFilter.max_level_pct s.max_level_pct)
]

module _ {ℓ κ} {F : Type ℓ} {S : Type κ} where
  abbrev pub settings : Client F S → Settings F
  settings client = record {
    instrument = client.instrument;
    region = client.region;
    exchange = client.exchange;
    cli_instrument = client.cli_instrument;
    max_level_pct = client.max_level_pct;
    max_level = client.max_level;
  }

  pub settings-on_metrics :
      (change : LobMetrics F → LobMetrics F) (client : Client F S)
      → settings (on_metrics change client) ≡ settings client
  unfolding on_metrics
  settings-on_metrics change client = ground arith

  pub settings-show_book :
      (numerals : Numerals F) (clock : Clock) (view : BookView F) (client : Client F S)
      → settings (show_book numerals clock view client) ≡ settings client
  unfolding show_book on_status on_metrics
  settings-show_book numerals clock view client = ground arith

  pub settings-on_trade :
      ⦃f : Float F⦄ (numerals : Numerals F) (clock : Clock) (client : Client F S) (rate : TradeRate)
      → settings (on_trade numerals clock (client, rate)).0 ≡ settings client
  unfolding on_trade on_metrics
  settings-on_trade numerals clock client rate = ground arith

  pub lob_filter-settings : (client : Client F S) → lob_filter client ≡ filter_of (settings client)
  unfolding lob_filter
  lob_filter-settings client = refl
