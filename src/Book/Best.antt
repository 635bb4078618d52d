-- ===== src/Book/Best.antt =====
-- The best price of a side.
use cryptomeria.Common.{[], ◌∷◌, true, some, Ordering, lt, gt, ◌≡◌, ◌≢◌, arith}
use cryptomeria.Float.{Float, IsPreorder}
use cryptomeria.LevelMap.{LevelMap, get, first_key}
use cryptomeria.LevelMap.Order.{IsOrdered}
use cryptomeria.LevelMap.Lookup.{is_some}
use cryptomeria.Book.{bid, ask, OrderBook, best_bid, best_ask}
use cryptomeria.Book.Refinement.{amount_at}
use cryptomeria.Book.Invariant.{IsValid, side_cmp-IsPreorder}

module _ {ℓ κ} {K : Type ℓ} {V : Type κ} {cmp : K → K → Ordering} (p : IsPreorder cmp) where
  first_key-least :
      (m : LevelMap K V) (k q : K) {v : V}
      → IsOrdered cmp m
      → first_key m ≡ some k
      → get cmp q m ≡ some v
      → cmp q k ≢ lt
  unfolding get
  first_key-least [] k q o h g = cc
  first_key-least ((j, w) ∷ m) k q o h g = ground arith

  get-first_key : (m : LevelMap K V) (k : K) → first_key m ≡ some k → is_some (get cmp k m) ≡ true
  unfolding get
  get-first_key [] k h = cc
  get-first_key ((j, w) ∷ m) k h = ground (arith, p.cmp_refl k)

module _ {ℓ} {F : Type ℓ} ⦃f : Float F⦄ (p : IsPreorder f.cmp) where
  -- In a valid book the best bid is the price of a level and no bid has a greater price; the best
  -- ask is the price of a level and no ask has a smaller one.
  pub best_prices :
      (book : OrderBook F) (best q : F) {amount : F}
      → IsValid book
      → (best_bid book ≡ some best
          → (is_some (amount_at book bid best) ≡ true)
            × (amount_at book bid q ≡ some amount → f.cmp q best ≢ gt))
        × (best_ask book ≡ some best
            → (is_some (amount_at book ask best) ≡ true)
              × (amount_at book ask q ≡ some amount → f.cmp q best ≢ lt))
  best_prices book best q v = (
    λ h. (
      get-first_key (side_cmp-IsPreorder p bid) book.bids best h,
      λ g k.
          first_key-least (side_cmp-IsPreorder p bid) book.bids best q v.bids_valid.ordered h g
            (p.lt_of_gt q best k),
    ),
    λ h. (
      get-first_key p book.asks best h,
      λ g. first_key-least p book.asks best q v.asks_valid.ordered h g,
    ),
  )
