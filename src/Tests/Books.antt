-- ===== src/Tests/Books.antt =====
-- The order books of OKX and Kraken over fixed-point numbers.
use text.Mathlib.Text.{◌==◌ as str_eq}
use cryptomeria.Book.BatchBest.{IsBest, find_best_price-IsBest}
use cryptomeria.Book.Filters.{find_best_price, find_best}
use mathlib.Core.List.{Perm}
use cryptomeria.Book.Selection.{filter_snapshot_levels-best}
use cryptomeria.Book.Filters.{priced, filter_snapshot_levels}
use cryptomeria.Book.{side_cmp}
use cryptomeria.Common.{
  ◌≤◌, List, [], ◌∷◌, true, none, some, String, ◌≡◌, ◌≢◌, refl, arith, length, gt, lt,
  if◌then◌else◌, min, map, keep_map, All, ◌++◌,
}
use cryptomeria.Float.Fixed.{Fixed, fixed_float, Fixed-IsLawful, fixed_cmp-IsPreorder, fixed_cmp}
use cryptomeria.LevelMap.{contains_key, insert}
use cryptomeria.LevelMap.Lookup.{is_some}
use cryptomeria.Traits.Filter.{max_level}
use cryptomeria.Book.{
  bid, ask, OrderBook, LevelFormat, new, side_levels, best_bid, best_ask, apply_snapshot,
  apply_update, snapshot_levels, snapshot_entry, levels_within_pct,
}
use cryptomeria.Book.Messages.{process_msg, process_side, snapshot, update, read_action}
use cryptomeria.Book.Invariant.{IsValid, new-IsValid, process_msg-IsValid}
use cryptomeria.Book.Refinement.{
  amount_at, settled, amount_at-apply_update, amount_at-apply_snapshot,
}
use cryptomeria.Book.Best.{best_prices}
use cryptomeria.Book.Depth.{IsFresh, process_side-snapshot_depth, process_side-update_overshoots}
use cryptomeria.Book.Window.{Splits, in_pct, levels_within_pct-Splits}
use cryptomeria.Okx.Lob.{PriceLevel, format, parse_level}

abbrev Data : Type 0
Data = List PriceLevel × List PriceLevel

abbrev levels_of : Data → String → List PriceLevel
levels_of d key = if str_eq key "bids" then d.0 else d.1

abbrev level : String → String → PriceLevel
level price amount = price ∷ amount ∷ []

abbrev okx : LevelFormat Fixed PriceLevel
okx = format

abbrev bids : List PriceLevel
bids = level "99" "2" ∷ level "100" "1" ∷ level "x" "1" ∷ level "2" "0" ∷ []

abbrev asks : List PriceLevel
asks = level "102" "3" ∷ level "101" "1" ∷ []

abbrev message : List Data
message = (bids, asks) ∷ []

sample : OrderBook Fixed
unfolding process_msg process_side read_action apply_snapshot snapshot_levels snapshot_entry
    parse_level insert
sample = process_msg okx levels_of new message none none

sample_bids : sample.bids ≡ (some 1_000_000, some 10_000) ∷ (some 990_000, some 20_000) ∷ []
unfolding sample
sample_bids = refl

process_msg-IsValid_example : IsValid sample
unfolding sample
process_msg-IsValid_example =
    process_msg-IsValid okx fixed_cmp-IsPreorder levels_of new message none none new-IsValid

abbrev changes : List PriceLevel
changes = level "100" "0" ∷ level "99" "5" ∷ level "99" "3" ∷ []

amount_at-apply_update_example :
    (amount_at (apply_update okx sample changes bid) bid (some 990_000)
      ≡ settled (some (some 30_000)) (amount_at sample bid (some 990_000)))
    × (side_levels (apply_update okx sample changes bid) ask ≡ sample.asks)
unfolding parse_level
amount_at-apply_update_example =
    amount_at-apply_update okx fixed_cmp-IsPreorder sample changes bid (some 990_000)
      process_msg-IsValid_example

amount_at-apply_snapshot_example :
    (amount_at (apply_snapshot okx sample changes bid) bid (some 1_000_000) ≡ none)
    × (side_levels (apply_snapshot okx sample changes bid) ask ≡ sample.asks)
unfolding parse_level
amount_at-apply_snapshot_example =
    amount_at-apply_snapshot okx fixed_cmp-IsPreorder sample changes bid (some 1_000_000)

best_prices_example :
    (best_bid sample ≡ some (some 1_000_000)
      → (is_some (amount_at sample bid (some 1_000_000)) ≡ true)
        × (amount_at sample bid (some 990_000) ≡ some (some 20_000)
            → fixed_cmp (some 990_000) (some 1_000_000) ≢ gt))
    × (best_ask sample ≡ some (some 1_000_000)
        → (is_some (amount_at sample ask (some 1_000_000)) ≡ true)
          × (amount_at sample ask (some 990_000) ≡ some (some 20_000)
              → fixed_cmp (some 990_000) (some 1_000_000) ≢ lt))
best_prices_example =
    best_prices fixed_cmp-IsPreorder sample (some 1_000_000) (some 990_000)
      process_msg-IsValid_example

process_side-snapshot_depth_example :
    length (side_levels (process_side okx new snapshot bid bids (some (max_level 1))) bid) ≤ 1
process_side-snapshot_depth_example = process_side-snapshot_depth okx new bid bids 1 (omega arith)

fresh : IsFresh okx bid [] (level "99" "2" ∷ level "100" "1" ∷ [])
unfolding parse_level insert contains_key
fresh = (
  (some 990_000, some 20_000),
  refl,
  refl,
  refl,
  refl,
  ((some 1_000_000, some 10_000), refl, refl, refl, refl, tt),
)

process_side-update_overshoots_example :
    length (
      side_levels
        (process_side okx new update bid
          (level "99" "2" ∷ level "100" "1" ∷ [])
          (some (max_level 1)))
        bid)
    ≡ 2
process_side-update_overshoots_example =
    process_side-update_overshoots okx new bid (level "99" "2" ∷ level "100" "1" ∷ []) 1
      (omega arith) fresh

levels_within_pct-Splits_example :
    let (kept_bids, kept_asks) = levels_within_pct sample (some 5000) in
    Splits (in_pct bid (some 5000) sample.bids) sample.bids kept_bids
    × Splits (in_pct ask (some 5000) sample.asks) sample.asks kept_asks
unfolding sample
levels_within_pct-Splits_example =
    levels_within_pct-Splits Fixed-IsLawful sample (some 5000) process_msg-IsValid_example
      (refl, (refl, tt)) (refl, (refl, tt))

window : (levels_within_pct sample (some 5000)).0 ≡ (some 1_000_000, some 10_000) ∷ []
unfolding sample levels_within_pct
window = refl

filter_snapshot_levels-best_example :
    (chosen : List (Fixed × PriceLevel)) × ((dropped : List (Fixed × PriceLevel))
      × ((filter_snapshot_levels okx new asks ask (max_level 1) none ≡ map (λ e. e.1) chosen)
          × (Perm (chosen ++ dropped) (keep_map (priced okx) asks)
              × ((length chosen ≡ min 1 (length (chosen ++ dropped)))
                  × All (λ a. All (λ b. side_cmp ask a.0 b.0 ≢ gt) dropped) chosen))))
unfolding parse_level
filter_snapshot_levels-best_example =
    filter_snapshot_levels-best okx Fixed-IsLawful new asks ask 1 none (refl, (refl, tt))

find_best_price-IsBest_example : IsBest okx ask asks (find_best_price okx asks ask)
unfolding parse_level
find_best_price-IsBest_example =
    find_best_price-IsBest okx Fixed-IsLawful ask asks (refl, (refl, tt))

best_ask_of_batch : find_best_price okx asks ask ≡ some (some 1_010_000)
unfolding parse_level find_best_price find_best
best_ask_of_batch = refl
