-- ===== src/Metrics/Report/Answered.antt =====
-- The answer of /metrics about each instrument is the one that its gauges describe.
use text.Mathlib.Text.{◌==◌ as str_eq}
use text.Mathlib.TextEquality.{eq_iff}
use mathlib.Core.List.{Perm}
use cryptomeria.Dict.{Dict, text_key, get, insert, get-insert, map_value}
use cryptomeria.Common.{
  List, [], ◌∷◌, true, false, ◌||◌, ◌&&◌, Option, none, some, String, ◌≡◌, ◌⊎◌, inl, inr,
  Bool-cases, Option-cases, refl, arith, All, if◌then◌else◌, sym, subst, ap, ◌∙◌, keep,
}
use cryptomeria.Float.{Float, IsLawful}
use cryptomeria.Text.{is_empty_text}
use cryptomeria.Json.{and_then}
use cryptomeria.Migrate.{unwrap_or}
use cryptomeria.Book.Filters.{sort_by}
use cryptomeria.Book.Sorting.{Rises, sort_by-perm}
use cryptomeria.Metrics.Report.{
  Casts, DepthEntry, Entry, Metric, MetricFamily, Report, depth_cmp, sort_depth, sort_report,
  sort_instruments, respond, add_families, add_to_report, add_metric, depth_entry, sorted, no_entry,
  with_metric, label,
}
use cryptomeria.Metrics.Report.Order.{depth_order, IsPriced, sorted-Rises, depth_entry-IsPriced}
use cryptomeria.Metrics.Report.Gathered.{
  Named, gauges, has_labels, depths, Shows, Answers, unseen, seen, add_own, add_own-bid,
  add_own-ask, add_own-spread, add_own-update, add_own-trades, add_own-depth, lookup, after,
  after-some, add_all, add_all-gauges,
}

module _ {ℓ} {F : Type ℓ} ⦃f : Float F⦄ (casts : Casts F) (exchange instrument : String) where
  get_entry :
      (e : String) (r : Report F)
      → str_eq e exchange ≡ true
      → get instrument (unwrap_or [] (get e r)) ≡ lookup casts exchange instrument r
  unfolding get
  get_entry e r h = elim (Option-cases (get exchange r)) [
    | inl none_yet ↦ rw ((eq_iff e exchange).0 h) (rw none_yet refl)
    | inr (d, found) ↦ rw ((eq_iff e exchange).0 h) (rw found refl)
  ]

  lookup-insert :
      (e i : String) (x : Entry F) (r : Report F)
      → lookup casts exchange instrument (insert e (insert i x (unwrap_or [] (get e r))) r) ≡ (
          if str_eq e exchange && str_eq i instrument
          then some x
          else lookup casts exchange instrument r)
  lookup-insert e i x r = elim (Bool-cases (str_eq e exchange)) [
    | inl h ↦
        ap (λ o. and_then o (λ d. get instrument d)) (get-insert e exchange _ r)
        ∙ rw h (get-insert i instrument x (unwrap_or [] (get e r)) ∙ rw (get_entry e r h) refl)
    | inr h ↦ ap (λ o. and_then o (λ d. get instrument d)) (get-insert e exchange _ r) ∙ rw h refl
  ]

  get_found :
      (e i : String) (r : Report F)
      → (str_eq e exchange && str_eq i instrument) ≡ true
      → get i (unwrap_or [] (get e r)) ≡ lookup casts exchange instrument r
  get_found e i r h =
      ap (λ j. get j (unwrap_or [] (get e r))) ((eq_iff i instrument).0 (ground arith))
      ∙ get_entry e r (ground arith)

  lookup-with_metric :
      (n : String) (m : Metric F) (e i : String) (r : Report F)
      → lookup casts exchange instrument (with_metric casts n m e i r) ≡ (
          if str_eq e exchange && str_eq i instrument
          then some (add_metric casts n m (unwrap_or no_entry (lookup casts exchange instrument r)))
          else lookup casts exchange instrument r)
  lookup-with_metric n m e i r =
      lookup-insert e i _ r ∙ elim (Bool-cases (str_eq e exchange && str_eq i instrument)) [
        | inl h ↦
            rw h (ap (λ o. some (add_metric casts n m (unwrap_or no_entry o))) (get_found e i r h))
        | inr h ↦ rw h refl
      ]

  emptiness : (e x : String) → str_eq e x ≡ true → is_empty_text e ≡ is_empty_text x
  emptiness e x h = ap is_empty_text ((eq_iff e x).0 h)

  label_missing :
      (e i : String)
      → is_empty_text exchange ≡ false
      → is_empty_text instrument ≡ false
      → (is_empty_text e || is_empty_text i) ≡ true
      → (str_eq e exchange && str_eq i instrument) ≡ false
  label_missing e i he hi h =
      ground (arith, emptiness e exchange, emptiness i instrument, he, hi, h)

  -- Only a gauge with the two labels changes the entry.
  lookup-add_to_report :
      (n : String) (m : Metric F) (r : Report F)
      → is_empty_text exchange ≡ false
      → is_empty_text instrument ≡ false
      → lookup casts exchange instrument (add_to_report casts n r m) ≡ (
          if has_labels exchange instrument (n, m)
          then some (add_metric casts n m (unwrap_or no_entry (lookup casts exchange instrument r)))
          else lookup casts exchange instrument r)
  unfolding add_to_report
  lookup-add_to_report n m r he hi =
      let e = unwrap_or "" (label "exchange" m.labels) in
      let i = unwrap_or "" (label "instrument" m.labels) in
      elim (Bool-cases (is_empty_text e || is_empty_text i)) [
        | inl h ↦ rw (h, label_missing e i he hi h) refl
        | inr h ↦ rw h (lookup-with_metric n m e i r)
      ]

  lookup-add_all :
      (gs : List (Named F)) (r : Report F)
      → is_empty_text exchange ≡ false
      → is_empty_text instrument ≡ false
      → lookup casts exchange instrument (add_all casts gs r)
        ≡ after casts
            (lookup casts exchange instrument r)
            (keep (has_labels exchange instrument) gs)
  lookup-add_all [] r he hi = refl
  lookup-add_all ((n, m) ∷ gs) r he hi =
      lookup-add_all gs (add_to_report casts n r m) he hi
      ∙ elim (Bool-cases (has_labels exchange instrument (n, m))) [
        | inl h ↦
            ap (λ o. after casts o (keep (has_labels exchange instrument) gs))
              (lookup-add_to_report n m r he hi)
            ∙ rw h refl
        | inr h ↦
            ap (λ o. after casts o (keep (has_labels exchange instrument) gs))
              (lookup-add_to_report n m r he hi)
            ∙ rw h refl
      ]

  get-sort_instruments :
      (d : Dict String (Entry F))
      → get instrument (sort_instruments d) ≡ map_value sort_depth (get instrument d)
  unfolding get
  get-sort_instruments [] = refl
  get-sort_instruments ((j, e) ∷ d) = ground (arith, get-sort_instruments d)

  lookup-sort_report :
      (r : Report F)
      → lookup casts exchange instrument (sort_report r)
        ≡ map_value sort_depth (lookup casts exchange instrument r)
  unfolding get sort_report
  lookup-sort_report [] = refl
  lookup-sort_report ((e, d) ∷ r) = elim (Bool-cases (text_key.same e exchange)) [
    | inl h ↦ rw h (get-sort_instruments d)
    | inr h ↦ rw h (lookup-sort_report r)
  ]

module _ {ℓ} {F : Type ℓ} ⦃f : Float F⦄ (casts : Casts F) (zero_num : f.is_nan f.nought ≡ false)
    (number_num : (x y : F) → casts.number x ≡ some y → f.is_nan y ≡ false)
    (laws : IsLawful F) where
  entry-IsPriced :
      (n : String) (m : Metric F) (side : String)
      → (side ≡ "bid") ⊎ (side ≡ "ask")
      → IsPriced (depth_entry casts side m)
  entry-IsPriced n m side (inl h) =
      subst (λ s. IsPriced (depth_entry casts s m)) (sym h)
        (depth_entry-IsPriced casts zero_num number_num "lob_depth_bid" m)
  entry-IsPriced n m side (inr h) =
      subst (λ s. IsPriced (depth_entry casts s m)) (sym h)
        (depth_entry-IsPriced casts zero_num number_num "lob_depth_ask" m)

  depths-IsPriced : (own : List (Named F)) → All IsPriced (depths casts own)
  depths-IsPriced [] = tt
  depths-IsPriced ((n, m) ∷ rest) = elim (Bool-cases (str_eq n "lob_depth_bid")) [
    | inl h ↦ rw h (entry-IsPriced n m "bid" (inl refl), depths-IsPriced rest)
    | inr h ↦ elim (Bool-cases (str_eq n "lob_depth_ask")) [
      | inl k ↦ rw (h, k) (entry-IsPriced n m "ask" (inr refl), depths-IsPriced rest)
      | inr k ↦ rw (h, k) (depths-IsPriced rest)
    ]
  ]

  unwrap_or-sorted :
      (d : Option (List (DepthEntry F)))
      → unwrap_or [] (sorted d) ≡ sort_by depth_cmp (unwrap_or [] d)
  unfolding sort_by
  unwrap_or-sorted none = refl
  unwrap_or-sorted (some ds) = refl

  sort_depth-Shows :
      (own : List (Named F)) → Shows casts own (sort_depth (add_own casts no_entry own))
  unfolding sort_depth
  sort_depth-Shows own =
      let depth =
        unwrap_or-sorted (add_own casts no_entry own).depth
        ∙ ap (sort_by depth_cmp) (add_own-depth casts own no_entry) in
      record {
        shows_bid = add_own-bid casts own no_entry;
        shows_ask = add_own-ask casts own no_entry;
        shows_spread = add_own-spread casts own no_entry;
        shows_update = add_own-update casts own no_entry;
        shows_trades = add_own-trades casts own no_entry;
        shows_depth =
            subst (λ ds. Perm ds (depths casts own)) (sym depth)
              (sort_by-perm depth_cmp (depths casts own));
        depth_rises =
            subst (Rises depth_order) (sym depth)
              (sorted-Rises laws (depths casts own) (depths-IsPriced own));
      }

  after-Answers :
      (own : List (Named F)) → Answers casts own (map_value sort_depth (after casts none own))
  after-Answers [] = unseen refl
  after-Answers ((n, m) ∷ rest) =
      subst (λ o. Answers casts ((n, m) ∷ rest) (map_value sort_depth o))
        (sym (after-some casts rest (add_metric casts n m no_entry)))
        (seen (λ h. ground (arith, h)) (sort_depth-Shows ((n, m) ∷ rest)))

  -- If OrderedFloat's comparison is lawful and the numbers that serde_json reads are not NaN, then for
  -- an exchange and an instrument that are not empty texts, the answer to /metrics has an entry
  -- exactly if a gauge with the two labels was gathered. The entry has the last value of each of the
  -- five plain families, and as its depth all entries of the two families of depth: all bids before
  -- all asks, bids from the highest price and asks from the lowest.
  pub respond-Answers :
      (families : List (MetricFamily F)) (exchange instrument : String)
      → is_empty_text exchange ≡ false
      → is_empty_text instrument ≡ false
      → Answers casts
          (keep (has_labels exchange instrument) (gauges families))
          (lookup casts exchange instrument (respond casts families))
  unfolding respond get
  respond-Answers families exchange instrument he hi =
      subst (Answers casts (keep (has_labels exchange instrument) (gauges families)))
        (sym (
          lookup-sort_report casts exchange instrument (add_families casts families [])
          ∙ ap (λ r. map_value sort_depth (lookup casts exchange instrument r))
              (add_all-gauges casts families [])
          ∙ ap (map_value sort_depth)
              (lookup-add_all casts exchange instrument (gauges families) [] he hi)))
        (after-Answers (keep (has_labels exchange instrument) (gauges families)))
