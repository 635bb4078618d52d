-- ===== src/Client/Counters.antt =====
-- How the operations of a client change the count of trades among its gauges.
use cryptomeria.Common.{ℕ, [], ◌∷◌, ◌≡◌, refl, ap, ◌∙◌, arith}
use cryptomeria.Dict.{get, get-insert}
use cryptomeria.Float.{Float}
use cryptomeria.Migrate.{unwrap_or}
use cryptomeria.Metrics.{
  LobMetrics, BookView, labels_key, same_labels_iff, count_trade, next_count, update_lob_metrics,
  update_depth_metrics,
}
use cryptomeria.Client.{
  Client, Clock, Numerals, TradeRate, metrics, on_metrics, on_status, show_book, on_trade,
  set_last_price,
}
use cryptomeria.Client.Settings.{Settings, settings}

-- The gauge trades_total under the labels of a client.
abbrev pub trades_in {ℓ} : {F : Type ℓ} → Settings F → LobMetrics F → ℕ
trades_in s lm = unwrap_or 0 (get (s.exchange ∷ s.cli_instrument ∷ []) lm.trades_total)

module _ {ℓ} {F : Type ℓ} where
  trades_in-count_trade :
      (s : Settings F) (lm : LobMetrics F)
      → trades_in s (count_trade s.exchange s.cli_instrument lm) ≡ next_count (trades_in s lm)
  unfolding count_trade
  trades_in-count_trade s lm =
      ap (unwrap_or 0) (
        get-insert (s.exchange ∷ s.cli_instrument ∷ []) (s.exchange ∷ s.cli_instrument ∷ []) _
          lm.trades_total)
      ∙ rw
          ((same_labels_iff (s.exchange ∷ s.cli_instrument ∷ [])
              (s.exchange ∷ s.cli_instrument ∷ [])).1
            refl)
          refl

module _ {ℓ κ} {F : Type ℓ} {S : Type κ} where
  abbrev pub trades_of : Client F S → ℕ
  trades_of client = trades_in (settings client) (metrics client)

  metrics-on_metrics :
      (change : LobMetrics F → LobMetrics F) (client : Client F S)
      → metrics (on_metrics change client) ≡ change (metrics client)
  unfolding metrics on_metrics
  metrics-on_metrics change client = ground arith

  pub trades_of-show_book :
      (numerals : Numerals F) (clock : Clock) (view : BookView F) (client : Client F S)
      → trades_of (show_book numerals clock view client) ≡ trades_of client
  unfolding show_book on_status on_metrics metrics update_lob_metrics update_depth_metrics
  trades_of-show_book numerals clock view client = ground arith

  pub trades_of-set_last_price :
      (now : ℕ) (price : F) (client : Client F S)
      → trades_of (set_last_price now price client) ≡ trades_of client
  unfolding set_last_price on_status metrics
  trades_of-set_last_price now price client = refl

  pub trades_of-on_trade :
      ⦃f : Float F⦄ (numerals : Numerals F) (clock : Clock) (client : Client F S) (rate : TradeRate)
      → trades_of (on_trade numerals clock (client, rate)).0 ≡ next_count (trades_of client)
  unfolding on_trade on_metrics metrics
  trades_of-on_trade numerals clock client rate =
      ground (arith, trades_in-count_trade (settings client) (metrics client))
