-- ===== src/Launch/Entries.antt =====
-- Which instruments get a client, and what status the client finds.
use text.Mathlib.Text.{◌==◌ as str_eq}
use text.Mathlib.TextEquality.{eq_iff}
use cryptomeria.Common.{
  List, [], ◌∷◌, true, false, ◌||◌, Option, none, some, String, ◌≡◌, refl, ◌∙◌, arith, All,
  if◌then◌else◌,
}
use cryptomeria.Dict.{get, get-insert, text_key}
use cryptomeria.Float.{Float}
use cryptomeria.Urls.{websocket_url}
use cryptomeria.Instruments.Resolve.{ResolvedInstrument}
use cryptomeria.Metrics.{LobMetrics}
use cryptomeria.Status.{StatusMap, starting}
use cryptomeria.Status.Isolation.{same_key}
use cryptomeria.Client.{Client}
use cryptomeria.Launch.{
  CliArgs, Started, okx_client, kraken_client, bitstamp_client, entry_key, start_statuses,
  configure, launch,
}

test_symm : (s t : String) → str_eq s t ≡ str_eq t s
test_symm s t = ground (arith, eq_iff s t, eq_iff t s)

apart : (s t u : String) → str_eq s t ≡ false → str_eq u s ≡ true → str_eq u t ≡ false
apart s t u h e = ground (arith, eq_iff s t, eq_iff u s, eq_iff u t, h, e)

module _ {ℓ} {F : Type ℓ} ⦃f : Float F⦄ where
  keeps_started :
      (key : String) (rs : List ResolvedInstrument) (map : StatusMap F)
      → get key map ≡ some starting
      → get key (start_statuses rs map) ≡ some starting
  unfolding start_statuses
  keeps_started key [] map h = h
  keeps_started key (ri ∷ rs) map h =
      keeps_started key rs _
        (ground (arith, get-insert (entry_key ri) key (starting {F = F}) map, h))

  -- When the clients start, each resolved instrument has an entry that says so, also if another one
  -- shares its key.
  pub start_statuses-entries :
      (rs : List ResolvedInstrument) (map : StatusMap F)
      → All (λ ri. get (entry_key ri) (start_statuses rs map) ≡ some starting) rs
  unfolding start_statuses
  start_statuses-entries [] map = tt
  start_statuses-entries (ri ∷ rs) map = (
    keeps_started (entry_key ri) rs _ (
        get-insert (entry_key ri) (entry_key ri) (starting {F = F}) map
        ∙ rw (same_key (entry_key ri)) refl),
    start_statuses-entries rs _,
  )

module _ {ℓ κ} {F : Type ℓ} {S : Type κ} (cli : CliArgs F) (questdb_conf : String)
    (shared_metrics : LobMetrics F) (status_handle : StatusMap F) where
  -- The client of the exchange that is named, with its configuration; none for another region or
  -- another exchange.
  abbrev pub by_name : String → String → Client F S → Option (Started F S)
  by_name region exchange client =
      if str_eq region "global" || str_eq region "europe"
      then (if str_eq exchange "okx"
          then some (okx_client client)
          else if str_eq exchange "kraken"
          then some (kraken_client client)
          else if str_eq exchange "bitstamp"
          then some (bitstamp_client client cli.bitstamp_snapshot_depth)
          else none)
      else none

  -- An instrument gets the client of its exchange if its region is "global" or "europe" and its
  -- exchange is one of the three, by these very names; otherwise its task panics, although the match
  -- on the exchange has a case for all others.
  pub launch-by_name :
      (registered : LobMetrics F) (sender : Option S) (ri : ResolvedInstrument)
      → launch cli questdb_conf shared_metrics status_handle registered sender ri
        ≡ by_name ri.region ri.exchange
            (configure cli questdb_conf shared_metrics status_handle registered sender ri)
  unfolding launch websocket_url get
  launch-by_name registered sender ri = ground (
    arith,
    test_symm "global" ri.region,
    test_symm "europe" ri.region,
    test_symm "okx" ri.exchange,
    test_symm "kraken" ri.exchange,
    test_symm "bitstamp" ri.exchange,
    apart "okx" "kraken" ri.exchange refl,
    apart "okx" "bitstamp" ri.exchange refl,
  )
