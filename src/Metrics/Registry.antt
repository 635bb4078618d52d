-- ===== src/Metrics/Registry.antt =====
-- LobMetrics::new of rs/src/traits/mod.rs: the seven families of gauges, and their registration.
use cryptomeria.Common.{List, [], ◌∷◌, String}
use cryptomeria.Common.Result.{Result, ok, err, Task, result, done, ◌>>◌}
use cryptomeria.Float.{Float}
use cryptomeria.Metrics.{LobMetrics}
use cryptomeria.Persistence.Buffers.{Leads, ◌and_then◌}

-- What a `GaugeVec` or an `IntGaugeVec` is made of.
pub record Opts : Type 0 where
  pub name : String
  pub help : String
  pub labels : List String

abbrev of_client : String → String → Opts
of_client name help = record { name = name; help = help; labels = "exchange" ∷ "instrument" ∷ [] }

abbrev of_level : String → String → Opts
of_level name help = record {
  name = name;
  help = help;
  labels = "exchange" ∷ "instrument" ∷ "price" ∷ [];
}

abbrev pub first_family : Opts
first_family = of_client "lob_best_bid" "Best bid price"

abbrev other_families : List Opts
other_families =
    of_client "lob_best_ask" "Best ask price"
    ∷ of_client "lob_spread" "Spread between best ask and best bid"
    ∷ of_client "lob_last_update_timestamp" "Last update timestamp in milliseconds"
    ∷ of_client "trades_total" "Total number of trades"
    ∷ of_level "lob_depth_bid" "Cumulative bid volume at price level"
    ∷ of_level "lob_depth_ask" "Cumulative ask volume at price level"
    ∷ []

abbrev pub families : List Opts
families = first_family ∷ other_families

-- The crate prometheus: the constructors of the vectors, and `Registry::register`.
pub record Prometheus {ℓ} (R : Type ℓ) : Type ℓ where
  pub make : Opts → Result (Unit {0})
  pub register : Opts → Task R (Unit {0})

module _ {ℓ} {R : Type ℓ} (prometheus : Prometheus R) where
  unfoldable pub make_all : List Opts → Result (Unit {0})
  make_all [] = ok tt
  make_all (o ∷ os) =
      let rest = make_all os in elim (prometheus.make o) [ ok made ↦ rest | err e ↦ err e ]

  unfoldable pub register_all : List Opts → Task R (Unit {0})
  register_all [] = done tt
  register_all (o ∷ os) = prometheus.register o >> register_all os

  abbrev pub set_up : Task R (Unit {0})
  set_up = result (make_all families) >> register_all families

  -- The gauges of a new `LobMetrics` have no values.
  unfoldable pub new {κ} : {F : Type κ} → ⦃f : Float F⦄ → Task R (LobMetrics F)
  new ⦃f⦄ =
      set_up
      >> done (record {
        best_bid = [];
        best_ask = [];
        spread = [];
        last_update = [];
        trades_total = [];
        trades_per_second = f.nought;
        lob_depth_bid = [];
        lob_depth_ask = [];
      })

-- What the crate documents of a registry: it knows the families that it took, and refuses another one
-- of the same name.
pub record IsRegistry {ℓ} {R : Type ℓ} (prometheus : Prometheus R) (Knows : String → R → Type 0)
    : Type ℓ where
  pub takes : (o : Opts) → Leads (λ r. Unit {0}) (prometheus.register o) (Knows o.name)
  pub keeps : (n : String) (o : Opts) → Leads (Knows n) (prometheus.register o) (Knows n)
  pub refuses : (o : Opts) → Leads (Knows o.name) (prometheus.register o) (λ r. ⊥)

module _ {ℓ} {R : Type ℓ} (prometheus : Prometheus R) (Knows : String → R → Type 0)
    (registry : IsRegistry prometheus Knows) where
  register_all-keeps :
      (n : String) (os : List Opts) → Leads (Knows n) (register_all prometheus os) (Knows n)
  unfolding register_all
  register_all-keeps n [] = record { leads = λ r h. h }
  register_all-keeps n (o ∷ os) = registry.keeps n o and_then register_all-keeps n os

  result-Leads : (P : R → Type 0) (r : Result (Unit {0})) → Leads P (result r) P
  result-Leads P (ok u) = record { leads = λ r h. h }
  result-Leads P (err e) = record { leads = λ r h. tt }

  nowhere : (m : Task R (Unit {0})) → Leads (λ r. ⊥) m (λ r. ⊥)
  nowhere m = record { leads = λ r impossible. absurd impossible }

  register_all-first :
      (o : Opts) (os : List Opts)
      → Leads (λ r. Unit {0}) (register_all prometheus (o ∷ os)) (Knows o.name)
  unfolding register_all
  register_all-first o os = registry.takes o and_then register_all-keeps o.name os

  register_all-again :
      (o : Opts) (os : List Opts) → Leads (Knows o.name) (register_all prometheus (o ∷ os)) (λ r. ⊥)
  unfolding register_all
  register_all-again o os = registry.refuses o and_then nowhere (register_all prometheus os)

  -- The gauges cannot be registered twice with one registry, so that main shares the first ones.
  pub set_up-twice : Leads (λ r. Unit {0}) (set_up prometheus >> set_up prometheus) (λ r. ⊥)
  set_up-twice =
      (result-Leads _ (make_all prometheus families)
        and_then register_all-first first_family other_families)
      and_then (result-Leads _ (make_all prometheus families)
          and_then register_all-again first_family other_families)
