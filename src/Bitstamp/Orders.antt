-- ===== src/Bitstamp/Orders.antt =====
-- Each price level of the Bitstamp book is the total of the orders at its price, added in some order, as
-- long as the book is fed with single orders.
pub mod Levels
use mathlib.Core.List.{Perm}
use mathlib.Core.List.Perm
use cryptomeria.Common.{
  ℕ, ◌≡◌, Bool, true, false, Option, none, some, inl, inr, eq, refl, arith, Bool-cases, not, ◌&&◌,
  ◌||◌, if◌then◌else◌, [], keep, subst, sym,
}
use cryptomeria.Float.{Float, feq, fgt, sum_from, IsPreorder, eq_right}
use cryptomeria.LevelMap.{get}
use cryptomeria.Book.{Side, bid, ask}
use cryptomeria.Bitstamp.Types.{OrderEntry}
use cryptomeria.Bitstamp.Lob.{
  Layout, at_level, without_order, OrderBook, OrderInfo, get_order, same_side, same_price,
  rebuild_price_level, put_order, place_order, apply_parsed, apply_order, entry_side,
  with_snapshot_depth,
}
use cryptomeria.Bitstamp.Invariant.{
  IsValid, with_orders-IsValid, rebuild_price_level-IsValid, apply_order-IsValid,
}
use Levels.{
  Rearranges, IsAggregated, Elsewhere, Gone, Agrees, with_orders-Agrees, keep-remove_order,
  rebuild_level, rebuild_keeps, replaced-Agrees, put_order-Agrees,
}

module _ {ℓ} {F : Type ℓ} ⦃f : Float F⦄ (p : IsPreorder f.cmp) where
  same_level :
      (old : OrderInfo F) (price : F) (side s : Side) (q : F)
      → (not (same_price old.price price) || not (same_side old.side side)) ≡ false
      → (same_side side s && same_price price q) ≡ false
      → Elsewhere s q old
  same_level old price bid s q h away = ground (arith, p.eq_left old.price price q)
  same_level old price ask s q h away = ground (arith, p.eq_left old.price price q)

  removed-Agrees :
      (book : OrderBook F) (id : ℕ) (old : OrderInfo F) (s : Side) (q : F)
      → get_order id book.orders.entries ≡ some old
      → IsValid book
      → Agrees book s q
      → Agrees
          (rebuild_price_level
            (record book { orders = without_order id book.orders })
            old.side
            old.price)
          s
          q
  removed-Agrees book id old s q found v a =
      let valid = with_orders-IsValid p book (without_order id book.orders) v in
      elim (Bool-cases (same_side old.side s && same_price old.price q)) [
        | inl here ↦ rebuild_level p _ old.side old.price s q valid here
        | inr away ↦ rebuild_keeps p _ old.side old.price s q valid (
            with_orders-Agrees book (without_order id book.orders) s q
              (subst (Perm (keep (at_level s q) book.orders.entries))
                (sym (keep-remove_order s q id book.orders.entries (rw found away))) Perm.rfl)
              a)
      ]

  moved-Agrees :
      (book : OrderBook F) (id : ℕ) (old : OrderInfo F) (price size : F) (side s : Side) (q : F)
      → get_order id book.orders.entries ≡ some old
      → Rearranges book.orders.layout
      → IsValid book
      → Agrees book s q
      → Agrees
          (rebuild_price_level
            (rebuild_price_level (put_order book id price size side) old.side old.price)
            side
            price)
          s
          q
  moved-Agrees book id old price size side s q found keeps v a =
      let put = put_order book id price size side in
      let v₁ : IsValid put = with_orders-IsValid p book _ v in
      let once = rebuild_price_level put old.side old.price in
      let v₂ : IsValid once = rebuild_price_level-IsValid p put old.side old.price v₁ in
      elim (Bool-cases (same_side side s && same_price price q)) [
        | inl here ↦ rebuild_level p once side price s q v₂ here
        | inr away ↦
            rebuild_keeps p once side price s q v₂
              (elim (Bool-cases (same_side old.side s && same_price old.price q)) [
                | inl was_here ↦ rebuild_level p put old.side old.price s q v₁ was_here
                | inr was_away ↦ rebuild_keeps p put old.side old.price s q v₁ (
                    put_order-Agrees p book id price size side s q keeps away (rw found was_away) a)
              ])
      ]

  place_order-Agrees :
      (book : OrderBook F) (existing : Option (OrderInfo F)) (id : ℕ) (price amount : F)
      (side s : Side) (q : F)
      → get_order id book.orders.entries ≡ existing
      → Rearranges book.orders.layout
      → IsValid book
      → Agrees book s q
      → Agrees (place_order book existing id price amount side) s q
  place_order-Agrees book (some old) id price amount side s q found keeps v a =
      elim (Bool-cases (feq amount f.nought)) [
        | inl z ↦ rw z (removed-Agrees book id old s q found v a)
        | inr nz ↦
            rw nz
              (elim (Bool-cases
                (not (same_price old.price price) || not (same_side old.side side))) [
                  | inl moved ↦
                      rw moved (moved-Agrees book id old price amount side s q found keeps v a)
                  | inr same ↦ rw same (
                      replaced-Agrees p book id price amount side s q keeps v
                        (λ away. rw found (same_level old price side s q same away)) a)
                ])
      ]
  place_order-Agrees book none id price amount side s q found keeps v a =
      elim (Bool-cases (fgt amount f.nought)) [
        | inl pos ↦
            rw pos (replaced-Agrees p book id price amount side s q keeps v (λ away. rw found tt) a)
        | inr not_pos ↦ rw not_pos a
      ]

  apply_parsed-Agrees :
      (book : OrderBook F) (entry : OrderEntry) (price amount : Option F) (s : Side) (q : F)
      → Rearranges book.orders.layout
      → IsValid book
      → Agrees book s q
      → Agrees (apply_parsed book entry price amount) s q
  apply_parsed-Agrees book entry none amount s q keeps v a = a
  apply_parsed-Agrees book entry (some price) none s q keeps v a = a
  apply_parsed-Agrees book entry (some price) (some amount) s q keeps v a =
      place_order-Agrees book (get_order entry.id book.orders.entries) entry.id price amount
        (entry_side entry) s q refl keeps v a

  -- If the prices are totally preordered, and an insertion into the map of orders keeps its entries,
  -- in whatever order it then has them: if in a valid book each level holds the total of the sizes of
  -- the orders at its price, added in some order, and there is no level where that is 0.0, this still
  -- holds after any order entry: a new, a changed, a moved, a removed order, or one that does not
  -- parse. (Which order is added first is the map's, and matters for sums of floats.)
  pub apply_order-IsAggregated :
      (book : OrderBook F) (entry : OrderEntry)
      → Rearranges book.orders.layout
      → IsValid book
      → IsAggregated book
      → IsAggregated (apply_order book entry)
  unfolding apply_order
  apply_order-IsAggregated book entry keeps v a s q =
      apply_parsed-Agrees book entry (f.parse entry.price) (f.parse entry.amount) s q keeps v
        (a s q)

  -- A new book is aggregated.
  pub with_snapshot_depth-IsAggregated :
      (layout : Layout F) (depth : ℕ)
      → feq f.nought f.nought ≡ true
      → IsAggregated (with_snapshot_depth layout depth)
  unfolding with_snapshot_depth get sum_from
  with_snapshot_depth-IsAggregated layout depth z bid q = ([], Perm.rfl, rw z refl)
  with_snapshot_depth-IsAggregated layout depth z ask q = ([], Perm.rfl, rw z refl)
