-- ===== src/Book/Selection.antt =====
-- A snapshot under `MaxLevel(max)` keeps the best levels of the message.
use mathlib.Core.List.{Perm}
use cryptomeria.Common.{
  ℕ, min, List, ◌++◌, false, Option, Ordering, gt, ◌≡◌, ◌≢◌, refl, arith, All, length, take, map,
  keep_map, subst, sym,
}
use cryptomeria.Float.{Float, IsLawful, IsPreorder}
use cryptomeria.Traits.Filter.{max_level}
use cryptomeria.Book.{Side, bid, ask, OrderBook, LevelFormat, side_cmp}
use cryptomeria.Book.Filters.{compare_prices, sort_by, priced, filter_snapshot_levels}
use cryptomeria.Book.Invariant.{side_cmp-IsPreorder}
use cryptomeria.Book.Sorting.{
  drop, take-append-drop, length-take-min, sort_by-perm, sort_by-Rises, Rises-split, sort_by-agree,
  Rises,
}

module _ {ℓ κ} {F : Type ℓ} {L : Type κ} where
  abbrev by_price : (F → F → Ordering) → F × L → F × L → Ordering
  by_price cmp a b = cmp a.0 b.0

  by_price-IsPreorder : {cmp : F → F → Ordering} → IsPreorder cmp → IsPreorder (by_price cmp)
  by_price-IsPreorder p = record {
    cmp_refl = λ a. p.cmp_refl a.0;
    gt_of_lt = λ a b. p.gt_of_lt a.0 b.0;
    lt_of_gt = λ a b. p.lt_of_gt a.0 b.0;
    eq_symm = λ a b. p.eq_symm a.0 b.0;
    lt_trans = λ a b c. p.lt_trans a.0 b.0 c.0;
    eq_left = λ a b c. p.eq_left a.0 b.0 c.0;
  }

module _ {ℓ} {F : Type ℓ} ⦃f : Float F⦄ (laws : IsLawful F) where
  compare_prices-side_cmp :
      (side : Side) (a b : F)
      → f.is_nan a ≡ false
      → f.is_nan b ≡ false
      → compare_prices side a b ≡ side_cmp side a b
  compare_prices-side_cmp bid a b na nb = ground (arith, laws.partial_num b a nb na)
  compare_prices-side_cmp ask a b na nb = ground (arith, laws.partial_num a b na nb)

module _ {ℓ κ} {F : Type ℓ} {L : Type κ} ⦃f : Float F⦄ (format : LevelFormat F L)
    (laws : IsLawful F) where
  -- The levels that a snapshot keeps under `MaxLevel(max)`, if no price of the batch is NaN: of the
  -- levels with a positive amount, `max` of them or all if there are fewer, none of them worse than
  -- one that is left out.
  pub filter_snapshot_levels-best :
      (book : OrderBook F) (levels : List L) (side : Side) (max : ℕ) (best : Option F)
      → All (λ e. f.is_nan e.0 ≡ false) (keep_map (priced format) levels)
      → (chosen : List (F × L)) × ((dropped : List (F × L)) × ((filter_snapshot_levels format book
                levels side
                (max_level max)
                best
              ≡ map (λ e. e.1) chosen)
            × (Perm (chosen ++ dropped) (keep_map (priced format) levels)
                × ((length chosen ≡ min max (length (chosen ++ dropped)))
                    × All (λ a. All (λ b. side_cmp side a.0 b.0 ≢ gt) dropped) chosen))))
  unfolding filter_snapshot_levels
  filter_snapshot_levels-best book levels side max best numeric =
      let cands = keep_map (priced format) levels in
      let sorted = sort_by (λ a b. compare_prices side a.0 b.0) cands in
      let whole = take-append-drop max sorted in
      let p = by_price-IsPreorder {L = L} (side_cmp-IsPreorder laws.preorder side) in
      let same =
        sort_by-agree (λ a b. compare_prices side a.0 b.0) (by_price (side_cmp side))
          (λ e. f.is_nan e.0 ≡ false) (λ a b. compare_prices-side_cmp laws side a.0 b.0) cands
          numeric in
      (
        take max sorted,
        (
          drop max sorted,
          (
            refl,
            (
              rw whole (sort_by-perm (λ a b. compare_prices side a.0 b.0) cands),
              (
                rw whole (length-take-min max sorted),
                Rises-split (by_price (side_cmp side)) max sorted (
                    subst (Rises (by_price (side_cmp side))) (sym same)
                      (sort_by-Rises (by_price (side_cmp side)) p cands)),
              ),
            ),
          ),
        ),
      )
