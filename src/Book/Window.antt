-- ===== src/Book/Window.antt =====
-- `levels_within_pct` splits each side at its percentage.
use cryptomeria.Common.{
  List, [], ◌∷◌, Bool, true, false, ◌++◌, Option, none, some, lt, ◌≡◌, refl, arith, All, keep,
  subst, Bool-cases, inl, inr, ap,
}
use cryptomeria.Float.{Float, IsLawful, gt_trans, fge, fle}
use cryptomeria.LevelMap.{LevelMap, first_key}
use cryptomeria.LevelMap.Order.{Above, IsOrdered}
use cryptomeria.Traits.Filter.{bid_floor, ask_ceiling}
use cryptomeria.Book.{
  Side, bid, ask, OrderBook, side_cmp, bid_in_window, ask_in_window, levels_within_pct, best_bid,
  best_ask,
}
use cryptomeria.Book.Invariant.{IsValid}

module _ {ℓ} {A : Type ℓ} (test : A → Bool) where
  keep_none : (xs : List A) → All (λ x. test x ≡ false) xs → keep test xs ≡ []
  keep_none [] h = refl
  keep_none (x ∷ xs) (e, h) = rw e (keep_none xs h)

  -- Once the test fails it fails for the rest.
  abbrev Falls : List A → Type ℓ
  Falls [] = Unit
  Falls (x ∷ xs) = (test x ≡ false → All (λ y. test y ≡ false) xs) × Falls xs

  -- The list is what is kept and the rest; the test passes on the one and fails on the other.
  abbrev pub Splits : List A → List A → Type ℓ
  Splits xs kept =
      (rest : List A) × (xs ≡ kept ++ rest)
      × All (λ x. test x ≡ true) kept
      × All (λ x. test x ≡ false) rest

  keep-Splits : (xs : List A) → Falls xs → Splits xs (keep test xs)
  keep-Splits [] h = ([], refl, tt, tt)
  keep-Splits (x ∷ xs) (fails, h) = elim (Bool-cases (test x)) [
    | inl e ↦
        let (rest, parts, passed, failed) = keep-Splits xs h in
        rw e (rest, ap (◌∷◌ x) parts, (e, passed), failed)
    | inr e ↦
        let none_kept = keep_none xs (fails e) in rw (e, none_kept) (x ∷ xs, refl, tt, (e, fails e))
  ]

module _ {ℓ} {F : Type ℓ} ⦃f : Float F⦄ where
  -- No price of the map is NaN.
  abbrev pub IsNumeric : LevelMap F F → Type 0
  IsNumeric m = All (λ e. f.is_nan e.0 ≡ false) m

  -- Whether a price is within `pct` percent of the first price of a side: for bids at least
  -- best * (1 - pct / 100), for asks at most best * (1 + pct / 100).
  abbrev pub in_pct : Side → F → LevelMap F F → F × F → Bool
  in_pct side pct [] e = true
  in_pct bid pct ((best, v) ∷ m) e = fge e.0 (f.mul best (f.sub f.one (f.div pct f.hundred)))
  in_pct ask pct ((best, v) ∷ m) e = fle e.0 (f.mul best (f.add f.one (f.div pct f.hundred)))

  bids-in_pct : (pct : F) (m : LevelMap F F) → bid_in_window pct (first_key m) ≡ in_pct bid pct m
  bids-in_pct pct [] = refl
  bids-in_pct pct (e ∷ m) = refl

  asks-in_pct : (pct : F) (m : LevelMap F F) → ask_in_window pct (first_key m) ≡ in_pct ask pct m
  asks-in_pct pct [] = refl
  asks-in_pct pct (e ∷ m) = refl

module _ {ℓ} {F : Type ℓ} ⦃f : Float F⦄ (laws : IsLawful F) where
  bid_in_window-falls :
      (pct : F) (best : Option F) (a b : F × F)
      → f.is_nan a.0 ≡ false
      → f.is_nan b.0 ≡ false
      → f.cmp b.0 a.0 ≡ lt
      → bid_in_window pct best a ≡ false
      → bid_in_window pct best b ≡ false
  bid_in_window-falls pct none a b na nb h w = cc
  bid_in_window-falls pct (some best) a b na nb h w =
      let t = bid_floor pct best in
      elim (Bool-cases (f.is_nan t)) [
        | inl n ↦ ground (arith, laws.nan_partial b.0 t n)
        | inr n ↦ ground (
          arith,
          laws.partial_num a.0 t na n,
          laws.partial_num b.0 t nb n,
          laws.lt_trans b.0 a.0 t h,
        )
      ]

  ask_in_window-falls :
      (pct : F) (best : Option F) (a b : F × F)
      → f.is_nan a.0 ≡ false
      → f.is_nan b.0 ≡ false
      → f.cmp a.0 b.0 ≡ lt
      → ask_in_window pct best a ≡ false
      → ask_in_window pct best b ≡ false
  ask_in_window-falls pct none a b na nb h w = cc
  ask_in_window-falls pct (some best) a b na nb h w =
      let t = ask_ceiling pct best in
      elim (Bool-cases (f.is_nan t)) [
        | inl n ↦ ground (arith, laws.nan_partial b.0 t n)
        | inr n ↦ ground (
          arith,
          laws.partial_num a.0 t na n,
          laws.partial_num b.0 t nb n,
          laws.gt_of_lt a.0 b.0 h,
          gt_trans laws.preorder b.0 a.0 t,
        )
      ]

  Above-fails :
      (side : Side) (test : F × F → Bool)
      (falls : (a b : F × F)
        → f.is_nan a.0 ≡ false
        → f.is_nan b.0 ≡ false
        → side_cmp side a.0 b.0 ≡ lt
        → test a ≡ false
        → test b ≡ false)
      (a : F × F) (m : LevelMap F F)
      → f.is_nan a.0 ≡ false
      → test a ≡ false
      → Above (side_cmp side) a.0 m
      → IsNumeric m
      → All (λ y. test y ≡ false) m
  Above-fails side test falls a [] na h o n = tt
  Above-fails side test falls a (b ∷ m) na h (o, os) (n, ns) =
      (falls a b na n o h, Above-fails side test falls a m na h os ns)

  IsOrdered-Falls :
      (side : Side) (test : F × F → Bool)
      (falls : (a b : F × F)
        → f.is_nan a.0 ≡ false
        → f.is_nan b.0 ≡ false
        → side_cmp side a.0 b.0 ≡ lt
        → test a ≡ false
        → test b ≡ false)
      (m : LevelMap F F)
      → IsOrdered (side_cmp side) m
      → IsNumeric m
      → Falls test m
  IsOrdered-Falls side test falls [] o n = tt
  IsOrdered-Falls side test falls ((k, v) ∷ m) (o, os) (n, ns) =
      (λ h. Above-fails side test falls (k, v) m n h o ns, IsOrdered-Falls side test falls m os ns)

  -- In a valid book whose prices are not NaN, each side is what `levels_within_pct` returns of it,
  -- followed by the rest; the returned levels are those within the percentage of its first price, by
  -- the formula of `in_pct`, and no level of the rest is.
  pub levels_within_pct-Splits :
      (book : OrderBook F) (pct : F)
      → IsValid book
      → IsNumeric book.bids
      → IsNumeric book.asks
      → let (bids, asks) = levels_within_pct book pct in
        Splits (in_pct bid pct book.bids) book.bids bids
        × Splits (in_pct ask pct book.asks) book.asks asks
  unfolding levels_within_pct
  levels_within_pct-Splits book pct v nb na = (
    subst (λ t. Splits t book.bids (keep (bid_in_window pct (best_bid book)) book.bids))
        (bids-in_pct pct book.bids)
        (keep-Splits (bid_in_window pct (best_bid book)) book.bids (
          IsOrdered-Falls bid _ (bid_in_window-falls pct (best_bid book)) book.bids
            v.bids_valid.ordered nb)),
    subst (λ t. Splits t book.asks (keep (ask_in_window pct (best_ask book)) book.asks))
        (asks-in_pct pct book.asks)
        (keep-Splits (ask_in_window pct (best_ask book)) book.asks (
          IsOrdered-Falls ask _ (ask_in_window-falls pct (best_ask book)) book.asks
            v.asks_valid.ordered na)),
  )
