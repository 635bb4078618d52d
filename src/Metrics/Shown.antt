-- ===== src/Metrics/Shown.antt =====
-- What the depth gauges show after an update.
use cryptomeria.Common.{
  List, [], ◌∷◌, Option, some, String, ◌≡◌, refl, arith, if◌then◌else◌, ◌∙◌, ap,
}
use cryptomeria.Dict.{get, get-insert, text_key}
use cryptomeria.Metrics.{
  GaugeVec, LobMetrics, BookView, set_depth, update_depth_metrics, depth_labels, labels_key,
}

module _ {ℓ} {F : Type ℓ} (price_text : F → String) where
  -- The amount of the last level whose price has the text `t`, and `old` if there is none.
  abbrev pub last_amount : String → List (F × F) → Option F → Option F
  last_amount t [] old = old
  last_amount t ((price, amount) ∷ levels) old =
      last_amount t levels (if text_key.same (price_text price) t then some amount else old)

  same_depth :
      (exchange cli_instrument s t : String)
      → labels_key.same (exchange ∷ cli_instrument ∷ s ∷ []) (exchange ∷ cli_instrument ∷ t ∷ [])
        ≡ text_key.same s t
  same_depth exchange cli_instrument s t =
      ground (
        arith,
        text_key.same_iff exchange exchange,
        text_key.same_iff cli_instrument cli_instrument,
      )

  get-set_depth :
      (exchange cli_instrument t : String) (levels : List (F × F)) (gauge : GaugeVec F)
      → get
          (exchange ∷ cli_instrument ∷ t ∷ [])
          (set_depth price_text exchange cli_instrument levels gauge)
        ≡ last_amount t levels (get (exchange ∷ cli_instrument ∷ t ∷ []) gauge)
  unfolding set_depth
  get-set_depth exchange cli_instrument t [] gauge = refl
  get-set_depth exchange cli_instrument t ((price, amount) ∷ levels) gauge =
      get-set_depth exchange cli_instrument t levels _
      ∙ ap (last_amount t levels) (
          get-insert (depth_labels price_text exchange cli_instrument price) _ amount gauge
          ∙ ap (λ b. if b then some amount else get (exchange ∷ cli_instrument ∷ t ∷ []) gauge)
              (same_depth exchange cli_instrument (price_text price) t))

  -- After update_depth_metrics, the gauge of a side for a price text shows the amount of the last
  -- level of the side whose price has that text, and what it showed before if no level has it.
  pub update_depth_metrics-shown :
      (exchange cli_instrument t : String) (view : BookView F) (lm : LobMetrics F)
      → let labels = exchange ∷ cli_instrument ∷ t ∷ [] in
        let after = update_depth_metrics price_text exchange cli_instrument view lm in
        (get labels after.lob_depth_bid
          ≡ last_amount t view.view_bids (get labels lm.lob_depth_bid))
        × (get labels after.lob_depth_ask
            ≡ last_amount t view.view_asks (get labels lm.lob_depth_ask))
  unfolding update_depth_metrics
  update_depth_metrics-shown exchange cli_instrument t view lm = (
    get-set_depth exchange cli_instrument t view.view_bids lm.lob_depth_bid,
    get-set_depth exchange cli_instrument t view.view_asks lm.lob_depth_ask,
  )
