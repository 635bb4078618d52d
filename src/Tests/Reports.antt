-- ===== src/Tests/Reports.antt =====
-- The gauges of a small book, and the answer to /metrics.
use text.Mathlib.Text.{◌==◌ as str_eq}
use cryptomeria.Common.{
  List, [], ◌∷◌, true, false, Option, none, some, String, ◌≡◌, refl, arith, keep,
}
use cryptomeria.Common.Int.{pos}
use cryptomeria.Dict.{get, text_key}
use cryptomeria.Float.Fixed.{Fixed, fixed_float, Fixed-IsLawful}
use cryptomeria.Metrics.{LobMetrics, BookView, update_depth_metrics, labels_key}
use cryptomeria.Metrics.Shown.{update_depth_metrics-shown}
use cryptomeria.Metrics.Report.{Casts, Metric, MetricFamily, respond}
use cryptomeria.Metrics.Report.Gathered.{Answers, has_labels, gauges, lookup}
use cryptomeria.Metrics.Report.Answered.{respond-Answers}

-- two prices that look alike with two decimals
abbrev two_decimals : Fixed → String
two_decimals none = "NaN"
two_decimals (some n) = elim (str_eq "a" "b") [ true ↦ "" | false ↦ "100.00" ]

abbrev metrics : LobMetrics Fixed
metrics = record {
  best_bid = [];
  best_ask = [];
  spread = [];
  last_update = [];
  trades_total = [];
  trades_per_second = some 0;
  lob_depth_bid = ("okx" ∷ "btcusdt" ∷ "99.00" ∷ [], some 7) ∷ [];
  lob_depth_ask = [];
}

abbrev view : BookView Fixed
view = record {
  view_best_bid = some (some 1_000_020);
  view_best_ask = none;
  view_spread = none;
  view_bid_size = some 3;
  view_ask_size = some 0;
  view_bids = (some 1_000_020, some 1) ∷ (some 1_000_010, some 2) ∷ [];
  view_asks = [];
}

abbrev labels : String → List String
labels price = "okx" ∷ "btcusdt" ∷ price ∷ []

update_depth_metrics-shown_example :
    (get
        (labels "100.00")
        (update_depth_metrics two_decimals "okx" "btcusdt" view metrics).lob_depth_bid
      ≡ some (some 2))
    × (get
          (labels "100.00")
          (update_depth_metrics two_decimals "okx" "btcusdt" view metrics).lob_depth_ask
        ≡ none)
unfolding get
update_depth_metrics-shown_example =
    update_depth_metrics-shown two_decimals "okx" "btcusdt" "100.00" view metrics

abbrev number : Fixed → Option Fixed
number none = none
number (some n) = some (some n)

abbrev casts : Casts Fixed
casts = record { number = number; as_u64 = λ x. 0; as_i64 = λ x. pos 0 }

number-num : (x y : Fixed) → number x ≡ some y → fixed_float.is_nan y ≡ false
number-num none none h = ground (arith, h)
number-num none (some m) h = refl
number-num (some n) none h = ground (arith, h)
number-num (some n) (some m) h = refl

abbrev depth_of : String → Fixed → Metric Fixed
depth_of price volume = record {
  labels = ("exchange", "okx") ∷ ("instrument", "btcusdt") ∷ ("price", price) ∷ [];
  value = volume;
}

abbrev plain_labels : List (String × String)
plain_labels = ("exchange", "okx") ∷ ("instrument", "btcusdt") ∷ []

abbrev families : List (MetricFamily Fixed)
families =
    record {
      name = "lob_depth_ask";
      metrics = depth_of "102" (some 1) ∷ depth_of "101" (some 2) ∷ [];
    }
    ∷ record {
      name = "lob_depth_bid";
      metrics = depth_of "99" (some 3) ∷ depth_of "100" (some 4) ∷ [];
    }
    ∷ record {
      name = "lob_best_bid";
      metrics = record { labels = plain_labels; value = some 5 } ∷ [];
    }
    ∷ []

respond-Answers_example :
    Answers casts
      (keep (has_labels "okx" "btcusdt") (gauges families))
      (lookup casts "okx" "btcusdt" (respond casts families))
respond-Answers_example =
    respond-Answers casts refl number-num Fixed-IsLawful families "okx" "btcusdt" refl refl
