-- ===== src/Metrics/Report/Order.antt =====
-- The depth that /metrics reports is in order.
use text.Mathlib.Text.{◌==◌ as str_eq}
use cryptomeria.Dict.{text_key}
use cryptomeria.Common.{
  List, Bool, true, false, Option, none, some, Ordering, lt, gt, String, ◌≡◌, ◌⊎◌, inl, inr, refl,
  arith, All, if◌then◌else◌, sym, subst,
}
use cryptomeria.Float.{Float, IsLawful, IsPreorder, eq_right}
use cryptomeria.Migrate.{unwrap_or}
use cryptomeria.Book.Filters.{sort_by}
use cryptomeria.Book.Sorting.{Rises, sort_by-Rises, sort_by-agree}
use cryptomeria.Metrics.Report.{Casts, DepthEntry, Metric, depth_cmp, depth_side, depth_entry}

depth_side-IsSided :
    (b : Bool)
    → let s = (if◌then◌else◌ {A = String} b "bid" "ask") in
      ((str_eq s "bid" ≡ true) × (str_eq s "ask" ≡ false))
      ⊎ ((str_eq s "bid" ≡ false) × (str_eq s "ask" ≡ true))
depth_side-IsSided true = inl (refl, refl)
depth_side-IsSided false = inr (refl, refl)

module _ {ℓ} {F : Type ℓ} ⦃f : Float F⦄ where
  abbrev pub price_of : DepthEntry F → F
  price_of e = unwrap_or f.nought e.price

  -- Bids before asks, bids from the highest price and asks from the lowest.
  abbrev pub depth_order : DepthEntry F → DepthEntry F → Ordering
  depth_order a b =
      if str_eq a.side "bid"
      then (if str_eq b.side "bid" then f.cmp (price_of b) (price_of a) else lt)
      else if str_eq b.side "bid"
      then gt
      else f.cmp (price_of a) (price_of b)

  depth_order-IsPreorder : IsPreorder f.cmp → IsPreorder depth_order
  depth_order-IsPreorder p = record {
    cmp_refl = λ a. ground (arith, p.cmp_refl (price_of a));
    gt_of_lt = λ a b.
        ground (arith, p.gt_of_lt (price_of a) (price_of b), p.gt_of_lt (price_of b) (price_of a));
    lt_of_gt = λ a b.
        ground (arith, p.lt_of_gt (price_of a) (price_of b), p.lt_of_gt (price_of b) (price_of a));
    eq_symm = λ a b.
        ground (arith, p.eq_symm (price_of a) (price_of b), p.eq_symm (price_of b) (price_of a));
    lt_trans = λ a b c. ground (
      arith,
      p.lt_trans (price_of a) (price_of b) (price_of c),
      p.lt_trans (price_of c) (price_of b) (price_of a),
    );
    eq_left = λ a b c. ground (
      arith,
      p.eq_left (price_of a) (price_of b) (price_of c),
      eq_right p (price_of b) (price_of a) (price_of c),
    );
  }

  -- An entry of a side, with a price that is a number.
  abbrev pub IsPriced : DepthEntry F → Type 0
  IsPriced e =
      (((str_eq e.side "bid" ≡ true) × (str_eq e.side "ask" ≡ false))
        ⊎ ((str_eq e.side "bid" ≡ false) × (str_eq e.side "ask" ≡ true)))
      × (f.is_nan (price_of e) ≡ false)

  depth_cmp-agree :
      IsLawful F → (a b : DepthEntry F) → IsPriced a → IsPriced b → depth_cmp a b ≡ depth_order a b
  unfolding depth_cmp
  depth_cmp-agree l a b (p, n) (q, m) = ground (
    arith,
    p,
    q,
    l.partial_num (price_of a) (price_of b) n m,
    l.partial_num (price_of b) (price_of a) m n,
  )

  pub sorted-Rises :
      IsLawful F
      → (ds : List (DepthEntry F)) → All IsPriced ds
      → Rises depth_order (sort_by depth_cmp ds)
  sorted-Rises l ds h =
      subst (Rises depth_order)
        (sym (sort_by-agree depth_cmp depth_order IsPriced (depth_cmp-agree l) ds h))
        (sort_by-Rises depth_order (depth_order-IsPreorder l.preorder) ds)

  module _ (casts : Casts F) (zero_num : f.is_nan f.nought ≡ false)
      (number_num : (x y : F) → casts.number x ≡ some y → f.is_nan y ≡ false) where
    number-num : (x : F) → f.is_nan (unwrap_or f.nought (casts.number x)) ≡ false
    number-num x = go (casts.number x) (number_num x)
      where
        go :
            (o : Option F)
            → ((y : F) → o ≡ some y → f.is_nan y ≡ false)
            → f.is_nan (unwrap_or f.nought o) ≡ false
        go none h = zero_num
        go (some y) h = h y refl

    -- The depth that a gauge adds has a side, and a price that is a number.
    pub depth_entry-IsPriced :
        (name : String) (m : Metric F) → IsPriced (depth_entry casts (depth_side name) m)
    depth_entry-IsPriced name m = (depth_side-IsSided (str_eq name "lob_depth_bid"), number-num _)
