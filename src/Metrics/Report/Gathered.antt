-- ===== src/Metrics/Report/Gathered.antt =====
-- What /metrics answers for one instrument of one exchange: a description of it by the gauges with the
-- two labels, in the order in which they are gathered.
use text.Mathlib.Text.{◌==◌ as str_eq}
use text.Mathlib.TextEquality.{eq_iff}
use mathlib.Core.List.{Perm, append_assoc, append-nil}
use cryptomeria.Dict.{text_key, get}
use cryptomeria.Common.{
  List, [], ◌∷◌, ◌++◌, Bool, true, false, ◌&&◌, Option, none, some, String, ◌≡◌, inl, inr,
  Bool-cases, refl, if◌then◌else◌, sym, subst, ap, ◌∙◌,
}
use cryptomeria.Float.{Float}
use cryptomeria.Json.{and_then}
use cryptomeria.Migrate.{unwrap_or}
use cryptomeria.Book.Sorting.{Rises}
use cryptomeria.Metrics.Report.{
  Casts, DepthEntry, Entry, Metric, MetricFamily, Report, add_families, add_metrics, add_to_report,
  add_metric, depth_entry, no_entry, label,
}
use cryptomeria.Metrics.Report.Order.{depth_order}

-- A gauge with the name of its family.
abbrev pub Named {ℓ} : Type ℓ → Type ℓ
Named F = String × Metric F

module _ {ℓ} {F : Type ℓ} where
  abbrev pub named : String → List (Metric F) → List (Named F)
  named name [] = []
  named name (m ∷ ms) = (name, m) ∷ named name ms

  abbrev pub gauges : List (MetricFamily F) → List (Named F)
  gauges [] = []
  gauges (mf ∷ mfs) = named mf.name mf.metrics ++ gauges mfs

  abbrev pub has_labels : String → String → Named F → Bool
  has_labels exchange instrument g =
      str_eq (unwrap_or "" (label "exchange" g.1.labels)) exchange
      && str_eq (unwrap_or "" (label "instrument" g.1.labels)) instrument

  -- the value of the last gauge of a family, or `before`
  abbrev pub last_value {κ} : {A : Type κ} → (F → A) → String → Option A → List (Named F) → Option A
  last_value read name before [] = before
  last_value read name before ((n, m) ∷ rest) =
      last_value read name (if str_eq n name then some (read m.value) else before) rest

module _ {ℓ} {F : Type ℓ} ⦃f : Float F⦄ (casts : Casts F) where
  -- the gauges of the two families of depth, as entries
  abbrev pub depths : List (Named F) → List (DepthEntry F)
  depths [] = []
  depths ((n, m) ∷ rest) =
      if str_eq n "lob_depth_bid"
      then depth_entry casts "bid" m ∷ depths rest
      else if str_eq n "lob_depth_ask"
      then depth_entry casts "ask" m ∷ depths rest
      else depths rest

  -- What an entry says of the gauges of its instrument: of each family the last value, and all entries
  -- of the depth, in order.
  pub record Shows (own : List (Named F)) (entry : Entry F) : Type ℓ where
    pub shows_bid : entry.best_bid ≡ last_value (λ x. x) "lob_best_bid" none own
    pub shows_ask : entry.best_ask ≡ last_value (λ x. x) "lob_best_ask" none own
    pub shows_spread : entry.spread ≡ last_value (λ x. x) "lob_spread" none own
    pub shows_update :
        entry.last_update_ts ≡ last_value casts.as_u64 "lob_last_update_timestamp" none own
    pub shows_trades : entry.trades_total ≡ last_value casts.as_i64 "trades_total" none own
    pub shows_depth : Perm (unwrap_or [] entry.depth) (depths own)
    pub depth_rises : Rises depth_order (unwrap_or [] entry.depth)

  -- An instrument has an entry exactly if it has gauges.
  pub data Answers (own : List (Named F)) : Option (Entry F) → Type ℓ where
    unseen : own ≡ [] → Answers own none
    seen : {entry : Entry F} → ¬ (own ≡ []) → Shows own entry → Answers own (some entry)

  abbrev pub add_own : Entry F → List (Named F) → Entry F
  add_own e [] = e
  add_own e ((n, m) ∷ rest) = add_own (add_metric casts n m e) rest

  -- What one gauge changes, before the ones of `rest`.
  abbrev Changes : String → Metric F → Entry F → List (Named F) → Type ℓ
  Changes n m e rest =
      let d = add_metric casts n m e in
      (d.best_bid ≡ (if str_eq n "lob_best_bid" then some m.value else e.best_bid))
      × (d.best_ask ≡ (if str_eq n "lob_best_ask" then some m.value else e.best_ask))
      × (d.spread ≡ (if str_eq n "lob_spread" then some m.value else e.spread))
      × (d.last_update_ts ≡ (
          if str_eq n "lob_last_update_timestamp"
          then some (casts.as_u64 m.value)
          else e.last_update_ts))
      × (d.trades_total
          ≡ (if str_eq n "trades_total" then some (casts.as_i64 m.value) else e.trades_total))
      × (unwrap_or [] d.depth ++ depths rest ≡ unwrap_or [] e.depth ++ depths ((n, m) ∷ rest))

  is_text : (n t : String) → str_eq n t ≡ true → t ≡ n
  is_text n t h = sym ((eq_iff n t).0 h)

  -- a test of the name, which the rest may take to be false
  match_name :
      (n t : String) (m : Metric F) (e : Entry F) (rest : List (Named F))
      → Changes t m e rest
      → (str_eq n t ≡ false → Changes n m e rest)
      → Changes n m e rest
  match_name n t m e rest same other = elim (Bool-cases (str_eq n t)) [
    | inl h ↦ subst (λ u. Changes u m e rest) (is_text n t h) same
    | inr h ↦ other h
  ]

  add_metric-Changes :
      (n : String) (m : Metric F) (e : Entry F) (rest : List (Named F)) → Changes n m e rest
  unfolding add_metric
  add_metric-Changes n m e rest =
      let joined =
        λ (d : DepthEntry F). append_assoc (unwrap_or [] e.depth) (d ∷ []) (depths rest) in
      match_name n "lob_best_bid" m e rest (refl, refl, refl, refl, refl, refl)
        (λ a.
          match_name n "lob_best_ask" m e rest (refl, refl, refl, refl, refl, refl)
            (λ b.
              match_name n "lob_spread" m e rest (refl, refl, refl, refl, refl, refl)
                (λ c.
                  match_name n "lob_last_update_timestamp" m e rest
                    (refl, refl, refl, refl, refl, refl)
                    (λ d.
                      match_name n "trades_total" m e rest (refl, refl, refl, refl, refl, refl)
                        (λ g.
                          match_name n "lob_depth_bid" m e rest
                            (refl, refl, refl, refl, refl, joined (depth_entry casts "bid" m))
                            (λ h.
                              match_name n "lob_depth_ask" m e rest
                                (refl, refl, refl, refl, refl, joined (depth_entry casts "ask" m))
                                (λ k.
                                  rw (a, b, c, d, g, h, k)
                                    (refl, refl, refl, refl, refl, refl))))))))

  -- The entry of an instrument behind all its gauges, with what it had before.
  pub add_own-bid :
      (own : List (Named F)) (e : Entry F)
      → (add_own e own).best_bid ≡ last_value (λ x. x) "lob_best_bid" e.best_bid own
  add_own-bid [] e = refl
  add_own-bid ((n, m) ∷ rest) e =
      let (bid, ask, spread, update, trades, depth) = add_metric-Changes n m e rest in
      add_own-bid rest _ ∙ ap (λ b. last_value (λ x. x) "lob_best_bid" b rest) bid

  pub add_own-ask :
      (own : List (Named F)) (e : Entry F)
      → (add_own e own).best_ask ≡ last_value (λ x. x) "lob_best_ask" e.best_ask own
  add_own-ask [] e = refl
  add_own-ask ((n, m) ∷ rest) e =
      let (bid, ask, spread, update, trades, depth) = add_metric-Changes n m e rest in
      add_own-ask rest _ ∙ ap (λ b. last_value (λ x. x) "lob_best_ask" b rest) ask

  pub add_own-spread :
      (own : List (Named F)) (e : Entry F)
      → (add_own e own).spread ≡ last_value (λ x. x) "lob_spread" e.spread own
  add_own-spread [] e = refl
  add_own-spread ((n, m) ∷ rest) e =
      let (bid, ask, spread, update, trades, depth) = add_metric-Changes n m e rest in
      add_own-spread rest _ ∙ ap (λ b. last_value (λ x. x) "lob_spread" b rest) spread

  pub add_own-update :
      (own : List (Named F)) (e : Entry F)
      → (add_own e own).last_update_ts
        ≡ last_value casts.as_u64 "lob_last_update_timestamp" e.last_update_ts own
  add_own-update [] e = refl
  add_own-update ((n, m) ∷ rest) e =
      let (bid, ask, spread, update, trades, depth) = add_metric-Changes n m e rest in
      add_own-update rest _
      ∙ ap (λ b. last_value casts.as_u64 "lob_last_update_timestamp" b rest) update

  pub add_own-trades :
      (own : List (Named F)) (e : Entry F)
      → (add_own e own).trades_total ≡ last_value casts.as_i64 "trades_total" e.trades_total own
  add_own-trades [] e = refl
  add_own-trades ((n, m) ∷ rest) e =
      let (bid, ask, spread, update, trades, depth) = add_metric-Changes n m e rest in
      add_own-trades rest _ ∙ ap (λ b. last_value casts.as_i64 "trades_total" b rest) trades

  pub add_own-depth :
      (own : List (Named F)) (e : Entry F)
      → unwrap_or [] (add_own e own).depth ≡ unwrap_or [] e.depth ++ depths own
  add_own-depth [] e = sym (append-nil _)
  add_own-depth ((n, m) ∷ rest) e =
      let (bid, ask, spread, update, trades, depth) = add_metric-Changes n m e rest in
      add_own-depth rest _ ∙ depth

  -- From here on, one instrument of one exchange.
  abbrev pub lookup : String → String → Report F → Option (Entry F)
  lookup exchange instrument report = and_then (get exchange report) (λ d. get instrument d)

  abbrev pub after : Option (Entry F) → List (Named F) → Option (Entry F)
  after o [] = o
  after o ((n, m) ∷ rest) = after (some (add_metric casts n m (unwrap_or no_entry o))) rest

  pub after-some : (own : List (Named F)) (e : Entry F) → after (some e) own ≡ some (add_own e own)
  after-some [] e = refl
  after-some ((n, m) ∷ rest) e = after-some rest (add_metric casts n m e)

  abbrev pub add_all : List (Named F) → Report F → Report F
  add_all [] r = r
  add_all ((n, m) ∷ rest) r = add_all rest (add_to_report casts n r m)

  add_all-append :
      (gs hs : List (Named F)) (r : Report F) → add_all (gs ++ hs) r ≡ add_all hs (add_all gs r)
  add_all-append [] hs r = refl
  add_all-append ((n, m) ∷ gs) hs r = add_all-append gs hs (add_to_report casts n r m)

  add_all-named :
      (name : String) (ms : List (Metric F)) (r : Report F)
      → add_metrics casts name ms r ≡ add_all (named name ms) r
  unfolding add_metrics
  add_all-named name [] r = refl
  add_all-named name (m ∷ ms) r = add_all-named name ms (add_to_report casts name r m)

  pub add_all-gauges :
      (mfs : List (MetricFamily F)) (r : Report F)
      → add_families casts mfs r ≡ add_all (gauges mfs) r
  unfolding add_families
  add_all-gauges [] r = refl
  add_all-gauges (mf ∷ mfs) r =
      add_all-gauges mfs _
      ∙ ap (add_all (gauges mfs)) (add_all-named mf.name mf.metrics r)
      ∙ sym (add_all-append (named mf.name mf.metrics) (gauges mfs) r)
