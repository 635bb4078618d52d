-- ===== src/Metrics/Report.antt =====
-- The route /metrics of rs/src/traits/mod.rs: the gauges that the registry gathers, grouped by
-- exchange and instrument, each with its depth in order. The texts of the JSON are left out.
pub mod Order
pub mod Gathered
pub mod Answered
use text.Mathlib.Text.{◌==◌ as str_eq}
use cryptomeria.Common.{
  ℕ, List, [], ◌∷◌, ◌++◌, Bool, ◌&&◌, ◌||◌, Option, none, some, Ordering, lt, eq, gt, String,
  if◌then◌else◌,
}
use cryptomeria.Common.Int.{ℤ}
use cryptomeria.Float.{Float}
use cryptomeria.Json.{and_then}
use cryptomeria.Migrate.{unwrap_or}
use cryptomeria.Text.{is_empty_text}
use cryptomeria.Dict.{Dict, get, insert, text_key}
use cryptomeria.Book.Filters.{sort_by}

-- `Metric` and `MetricFamily` of the prometheus crate
pub record Metric {ℓ} (F : Type ℓ) : Type ℓ where
  pub labels : List (String × String)
  pub value : F

pub record MetricFamily {ℓ} (F : Type ℓ) : Type ℓ where
  pub name : String
  pub metrics : List (Metric F)

-- An element of the array "depth". The price is what `as_f64` gives of it: nothing for `null`, which
-- serde_json makes of a number that is not finite.
pub record DepthEntry {ℓ} (F : Type ℓ) : Type ℓ where
  pub price : Option F
  pub volume : F
  pub side : String

-- The object of an instrument, by its keys.
pub record Entry {ℓ} (F : Type ℓ) : Type ℓ where
  pub best_bid : Option F
  pub best_ask : Option F
  pub spread : Option F
  pub last_update_ts : Option ℕ
  pub trades_total : Option ℤ
  pub depth : Option (List (DepthEntry F))

abbrev pub Report {ℓ} : Type ℓ → Type ℓ
Report F = Dict String (Dict String (Entry F))

-- What the handler takes of Rust and of serde_json: `json!(x).as_f64()`, `x as u64` and `x as i64`.
pub record Casts {ℓ} (F : Type ℓ) : Type ℓ where
  pub number : F → Option F
  pub as_u64 : F → ℕ
  pub as_i64 : F → ℤ

abbrev pub no_entry {ℓ} : {F : Type ℓ} → Entry F
no_entry = record {
  best_bid = none;
  best_ask = none;
  spread = none;
  last_update_ts = none;
  trades_total = none;
  depth = none;
}

-- Labels are collected into a `HashMap`: the last one of a name is the one that counts.
unfoldable pub label : String → List (String × String) → Option String
label name [] = none
label name ((n, v) ∷ rest) = elim (label name rest) [
  | some w ↦ some w
  | none ↦ if str_eq n name then some v else none
]

abbrev pub depth_side : String → String
depth_side name = if str_eq name "lob_depth_bid" then "bid" else "ask"

module _ {ℓ} {F : Type ℓ} ⦃f : Float F⦄ (casts : Casts F) where
  abbrev pub depth_entry : String → Metric F → DepthEntry F
  depth_entry side m = record {
    price = casts.number (unwrap_or f.nought (and_then (label "price" m.labels) (λ p. f.parse p)));
    volume = m.value;
    side = side;
  }

  -- the `match name`
  unfoldable pub add_metric : String → Metric F → Entry F → Entry F
  add_metric name m entry =
      if str_eq name "lob_best_bid"
      then record entry { best_bid = some m.value }
      else if str_eq name "lob_best_ask"
      then record entry { best_ask = some m.value }
      else if str_eq name "lob_spread"
      then record entry { spread = some m.value }
      else if str_eq name "lob_last_update_timestamp"
      then record entry { last_update_ts = some (casts.as_u64 m.value) }
      else if str_eq name "trades_total"
      then record entry { trades_total = some (casts.as_i64 m.value) }
      else if str_eq name "lob_depth_bid" || str_eq name "lob_depth_ask"
      then record entry {
        depth = some (unwrap_or [] entry.depth ++ (depth_entry (depth_side name) m ∷ []));
      }
      else entry

  -- the entry is made where there is none
  abbrev pub with_metric : String → Metric F → String → String → Report F → Report F
  with_metric name m exchange instrument report =
      let instruments = unwrap_or [] (get exchange report) in
      let entry = unwrap_or no_entry (get instrument instruments) in
      insert exchange (insert instrument (add_metric name m entry) instruments) report

  -- one turn of the inner loop, with its `continue`
  unfoldable pub add_to_report : String → Report F → Metric F → Report F
  add_to_report name report m =
      let exchange = unwrap_or "" (label "exchange" m.labels) in
      let instrument = unwrap_or "" (label "instrument" m.labels) in
      if is_empty_text exchange || is_empty_text instrument
      then report
      else with_metric name m exchange instrument report

  unfoldable pub add_metrics : String → List (Metric F) → Report F → Report F
  add_metrics name [] report = report
  add_metrics name (m ∷ ms) report = add_metrics name ms (add_to_report name report m)

  unfoldable pub add_families : List (MetricFamily F) → Report F → Report F
  add_families [] report = report
  add_families (mf ∷ mfs) report = add_families mfs (add_metrics mf.name mf.metrics report)

module _ {ℓ} {F : Type ℓ} ⦃f : Float F⦄ where
  -- `a.partial_cmp(&b).unwrap_or(Ordering::Equal)`
  abbrev pub price_cmp : Option F → Option F → Ordering
  price_cmp a b = unwrap_or eq (f.partial_cmp (unwrap_or f.nought a) (unwrap_or f.nought b))

  unfoldable pub depth_cmp : DepthEntry F → DepthEntry F → Ordering
  depth_cmp a b =
      if str_eq a.side "bid" && str_eq b.side "bid"
      then price_cmp b.price a.price
      else if str_eq a.side "ask" && str_eq b.side "ask"
      then price_cmp a.price b.price
      else if str_eq a.side "bid" && str_eq b.side "ask"
      then lt
      else if str_eq a.side "ask" && str_eq b.side "bid"
      then gt
      else eq

  abbrev pub sorted : Option (List (DepthEntry F)) → Option (List (DepthEntry F))
  sorted none = none
  sorted (some arr) = some (sort_by depth_cmp arr)

  unfoldable pub sort_depth : Entry F → Entry F
  sort_depth entry = record entry { depth = sorted entry.depth }

  abbrev pub sort_instruments : Dict String (Entry F) → Dict String (Entry F)
  sort_instruments [] = []
  sort_instruments ((instrument, entry) ∷ rest) =
      (instrument, sort_depth entry) ∷ sort_instruments rest

  unfoldable pub sort_report : Report F → Report F
  sort_report [] = []
  sort_report ((exchange, instruments) ∷ rest) =
      (exchange, sort_instruments instruments) ∷ sort_report rest

  -- What a request of /metrics gets.
  unfoldable pub respond : Casts F → List (MetricFamily F) → Report F
  respond casts families = sort_report (add_families casts families [])
