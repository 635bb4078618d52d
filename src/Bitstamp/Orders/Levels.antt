-- ===== src/Bitstamp/Orders/Levels.antt =====
-- What writing an order and rebuilding a level do to the totals of the price levels.
use mathlib.Core.List.{Perm}
use mathlib.Core.List.Perm
use cryptomeria.Common.Perms.{keep-perm}
use cryptomeria.Common.{
  ℕ, List, [], ◌∷◌, true, false, Option, none, some, eq, ◌≡◌, inl, inr, refl, arith, ap, Bool-cases,
  ◌==◌, keep, map, subst, ◌&&◌, if◌then◌else◌, ◌∙◌,
}
use cryptomeria.Float.{Float, feq, sum, IsPreorder, eq_right}
use cryptomeria.LevelMap.{get}
use cryptomeria.Book.{Side, bid, ask, side_cmp}
use cryptomeria.Book.Refinement.{get-update_entry}
use cryptomeria.Bitstamp.Lob.{
  Layout, Orders, with_order, OrderBook, OrderInfo, side_levels, get_order, insert_order,
  remove_order, same_side, same_price, at_level, level_total, rebuild_price_level, put_order,
}
use cryptomeria.Bitstamp.Invariant.{with_orders-IsValid, IsValid}

module _ {ℓ} {F : Type ℓ} ⦃f : Float F⦄ where
  abbrev pub amount_at : OrderBook F → Side → F → Option F
  amount_at book side q = get (side_cmp side) q (side_levels book side)

  abbrev pub sizes_at : List (ℕ × OrderInfo F) → Side → F → List F
  sizes_at orders side q = map (λ e. e.1.size) (keep (at_level side q) orders)

  -- What sizes give, added one behind the other: their total, or nothing if that is 0.0.
  abbrev pub aggregate : List F → Option F
  aggregate sizes = let t = sum sizes in if feq t f.nought then none else some t

  -- The level holds the total of the sizes of the orders at its price, added in some order.
  abbrev pub Agrees : OrderBook F → Side → F → Type ℓ
  Agrees book side q =
      (sizes : List F) × Perm sizes (sizes_at book.orders.entries side q)
      × (amount_at book side q ≡ aggregate sizes)

  -- Every level does.
  abbrev pub IsAggregated : OrderBook F → Type ℓ
  IsAggregated book = (side : Side) (q : F) → Agrees book side q

  -- An insertion into the map keeps its entries, in whatever order they then are.
  abbrev pub Rearranges : Layout F → Type ℓ
  Rearranges layout = (n : ℕ) (entries : List (ℕ × OrderInfo F)) → Perm (layout n entries) entries

  -- The order does not count for the level.
  abbrev pub Elsewhere : Side → F → OrderInfo F → Type 0
  Elsewhere side q o = (same_side o.side side && same_price o.price q) ≡ false

  abbrev pub Gone : Side → F → Option (OrderInfo F) → Type 0
  Gone side q none = Unit
  Gone side q (some o) = Elsewhere side q o

  keep-insert_order :
      (side : Side) (q : F) (id : ℕ) (o : OrderInfo F) (orders : List (ℕ × OrderInfo F))
      → Elsewhere side q o
      → Gone side q (get_order id orders)
      → keep (at_level side q) (insert_order id o orders) ≡ keep (at_level side q) orders
  unfolding insert_order get_order
  keep-insert_order side q id o [] new old = rw new
  keep-insert_order side q id o ((j, p) ∷ rest) new old = elim (Bool-cases (j == id)) [
    | inl same ↦ let here : Elsewhere side q p = rw same at old in rw same (rw (new, here))
    | inr other ↦ rw other (rw (keep-insert_order side q id o rest new (rw other at old)))
  ]

  pub keep-remove_order :
      (side : Side) (q : F) (id : ℕ) (orders : List (ℕ × OrderInfo F))
      → Gone side q (get_order id orders)
      → keep (at_level side q) (remove_order id orders) ≡ keep (at_level side q) orders
  unfolding remove_order get_order
  keep-remove_order side q id [] old = refl
  keep-remove_order side q id ((j, p) ∷ rest) old = elim (Bool-cases (j == id)) [
    | inl same ↦ let here : Elsewhere side q p = rw same at old in rw same (rw here)
    | inr other ↦ rw other (rw (keep-remove_order side q id rest (rw other at old)))
  ]

  amount_at-with_orders :
      (book : OrderBook F) (orders : Orders F) (s : Side) (q : F)
      → amount_at (record book { orders = orders }) s q ≡ amount_at book s q
  amount_at-with_orders book orders bid q = refl
  amount_at-with_orders book orders ask q = refl

  pub with_orders-Agrees :
      (book : OrderBook F) (orders : Orders F) (s : Side) (q : F)
      → Perm (keep (at_level s q) book.orders.entries) (keep (at_level s q) orders.entries)
      → Agrees book s q
      → Agrees (record book { orders = orders }) s q
  with_orders-Agrees book orders s q same (sizes, perm, amount) = (
    sizes,
    Perm.trans perm (Perm.map (λ e. e.1.size) same),
    amount_at-with_orders book orders s q ∙ amount,
  )

module _ {ℓ} {F : Type ℓ} ⦃f : Float F⦄ (p : IsPreorder f.cmp) where
  keep-at_level :
      (side : Side) (a b : F) (orders : List (ℕ × OrderInfo F))
      → f.cmp a b ≡ eq
      → keep (at_level side a) orders ≡ keep (at_level side b) orders
  keep-at_level side a b [] h = refl
  keep-at_level side a b ((j, o) ∷ rest) h =
      ground (arith, eq_right p a b o.price h, keep-at_level side a b rest h)

  sizes_at-eq :
      (orders : List (ℕ × OrderInfo F)) (side : Side) (a b : F)
      → f.cmp a b ≡ eq
      → sizes_at orders side a ≡ sizes_at orders side b
  sizes_at-eq orders side a b h =
      ap (λ (xs : List (ℕ × OrderInfo F)). map (λ e. e.1.size) xs) (keep-at_level side a b orders h)

  rebuild_total :
      (book : OrderBook F) (side : Side) (price q : F)
      → IsValid book
      → f.cmp price q ≡ eq
      → amount_at (rebuild_price_level book side price) side q
        ≡ aggregate (sizes_at book.orders.entries side q)
  unfolding rebuild_price_level
  rebuild_total book bid price q v h =
      get-update_entry p bid (some (price, level_total book.orders.entries bid price)) book.bids q
        v.bids_valid.ordered
      ∙ ground (arith, sizes_at-eq book.orders.entries bid price q h)
  rebuild_total book ask price q v h =
      get-update_entry p ask (some (price, level_total book.orders.entries ask price)) book.asks q
        v.asks_valid.ordered
      ∙ ground (arith, p.eq_symm price q h, sizes_at-eq book.orders.entries ask price q h)

  orders-rebuild :
      (book : OrderBook F) (side : Side) (price : F)
      → (rebuild_price_level book side price).orders ≡ book.orders
  unfolding rebuild_price_level
  orders-rebuild book bid price = refl
  orders-rebuild book ask price = refl

  rebuild_here :
      (book : OrderBook F) (side : Side) (price q : F)
      → IsValid book
      → f.cmp price q ≡ eq
      → Agrees (rebuild_price_level book side price) side q
  rebuild_here book side price q v h = (
    sizes_at book.orders.entries side q,
    rw (orders-rebuild book side price) Perm.rfl,
    rebuild_total book side price q v h,
  )

  amount_elsewhere :
      (book : OrderBook F) (side : Side) (price : F) (s : Side) (q : F)
      → IsValid book
      → (same_side side s && same_price price q) ≡ false
      → amount_at (rebuild_price_level book side price) s q ≡ amount_at book s q
  unfolding rebuild_price_level
  amount_elsewhere book bid price ask q v h = refl
  amount_elsewhere book ask price bid q v h = refl
  amount_elsewhere book bid price bid q v h =
      get-update_entry p bid (some (price, level_total book.orders.entries bid price)) book.bids q
        v.bids_valid.ordered
      ∙ ground arith
  amount_elsewhere book ask price ask q v h =
      get-update_entry p ask (some (price, level_total book.orders.entries ask price)) book.asks q
        v.asks_valid.ordered
      ∙ ground (arith, p.eq_symm q price)

  rebuild_elsewhere :
      (book : OrderBook F) (side : Side) (price : F) (s : Side) (q : F)
      → IsValid book
      → (same_side side s && same_price price q) ≡ false
      → Agrees book s q
      → Agrees (rebuild_price_level book side price) s q
  rebuild_elsewhere book side price s q v h (sizes, perm, amount) = (
    sizes,
    rw (orders-rebuild book side price) perm,
    amount_elsewhere book side price s q v h ∙ amount,
  )

  pub rebuild_level :
      (book : OrderBook F) (side : Side) (price : F) (s : Side) (q : F)
      → IsValid book
      → (same_side side s && same_price price q) ≡ true
      → Agrees (rebuild_price_level book side price) s q
  rebuild_level book bid price ask q v h = ground arith
  rebuild_level book ask price bid q v h = ground arith
  rebuild_level book bid price bid q v h = rebuild_here book bid price q v (ground arith)
  rebuild_level book ask price ask q v h = rebuild_here book ask price q v (ground arith)

  pub rebuild_keeps :
      (book : OrderBook F) (side : Side) (price : F) (s : Side) (q : F)
      → IsValid book
      → Agrees book s q
      → Agrees (rebuild_price_level book side price) s q
  rebuild_keeps book side price s q v a =
      elim (Bool-cases (same_side side s && same_price price q)) [
        | inl h ↦ rebuild_level book side price s q v h
        | inr h ↦ rebuild_elsewhere book side price s q v h a
      ]

  pub put_order-Agrees :
      (book : OrderBook F) (id : ℕ) (price size : F) (side s : Side) (q : F)
      → Rearranges book.orders.layout
      → (same_side side s && same_price price q) ≡ false
      → Gone s q (get_order id book.orders.entries)
      → Agrees book s q
      → Agrees (put_order book id price size side) s q
  put_order-Agrees book id price size side s q keeps new old a =
      let o : OrderInfo F = record { price = price; size = size; side = side } in
      with_orders-Agrees book (with_order id o book.orders) s q
        (subst (λ es. Perm es (keep (at_level s q) (with_order id o book.orders).entries))
          (keep-insert_order s q id o book.orders.entries new old)
          (Perm.symm (keep-perm (at_level s q) (keeps book.orders.insertions _))))
        a

  -- an order that is written and whose new level is rebuilt, where the old one no longer counts
  pub replaced-Agrees :
      (book : OrderBook F) (id : ℕ) (price size : F) (side s : Side) (q : F)
      → Rearranges book.orders.layout
      → IsValid book
      → ((same_side side s && same_price price q) ≡ false
          → Gone s q (get_order id book.orders.entries))
      → Agrees book s q
      → Agrees (rebuild_price_level (put_order book id price size side) side price) s q
  replaced-Agrees book id price size side s q keeps v old a =
      let put = put_order book id price size side in
      let valid : IsValid put = with_orders-IsValid p book _ v in
      elim (Bool-cases (same_side side s && same_price price q)) [
        | inl here ↦ rebuild_level put side price s q valid here
        | inr away ↦
            rebuild_keeps put side price s q valid
              (put_order-Agrees book id price size side s q keeps away (old away) a)
      ]
