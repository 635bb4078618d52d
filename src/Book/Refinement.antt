-- ===== src/Book/Refinement.antt =====
-- A side of the book as a function from prices to amounts: what snapshots and updates do to it,
-- against a description that reads the batch alone.
use cryptomeria.Common.{List, [], ◌∷◌, Option, none, some, eq, ◌≡◌, refl, arith, if◌then◌else◌}
use cryptomeria.Float.{Float, feq, fgt, IsPreorder}
use cryptomeria.LevelMap.{LevelMap, get}
use cryptomeria.LevelMap.Order.{IsOrdered}
use cryptomeria.LevelMap.Lookup.{get-insert, get-remove}
use cryptomeria.Book.{
  Side, bid, ask, OrderBook, LevelFormat, side_cmp, side_levels, snapshot_entry, snapshot_levels,
  apply_snapshot, update_entry, update_levels, apply_update,
}
use cryptomeria.Book.Invariant.{IsSideValid, IsValid, side_cmp-IsPreorder, update_entry-IsSideValid}

abbrev pub opposite : Side → Side
opposite bid = ask
opposite ask = bid

module _ {ℓ} {F : Type ℓ} ⦃f : Float F⦄ where
  -- The amount at price `q` on a side.
  abbrev pub amount_at : OrderBook F → Side → F → Option F
  amount_at book side q = get (side_cmp side) q (side_levels book side)

  -- The amount that a parsed level gives for price `q`.
  abbrev pub quoted : Side → F → Option (F × F) → Option F
  quoted side q none = none
  quoted side q (some (price, amount)) = elim (side_cmp side q price) [
    | eq ↦ some amount
    | _ ↦ none
  ]

  abbrev pub positive : Option F → Option F
  positive none = none
  positive (some amount) = if fgt amount f.nought then some amount else none

  -- `later` if there is one, and `earlier` if not
  abbrev pub or_earlier : Option F → Option F → Option F
  or_earlier none earlier = earlier
  or_earlier (some a) earlier = some a

  -- What an amount leaves at its price: nothing, if it is 0.0.
  abbrev pub settled : Option F → Option F → Option F
  settled none old = old
  settled (some a) old = if feq a f.nought then none else some a

module _ {ℓ κ} {F : Type ℓ} {L : Type κ} ⦃f : Float F⦄ (parse_level : L → Option (F × F)) where
  -- The last amount that a batch gives for price `q`.
  abbrev pub last_quote : Side → F → List L → Option F
  last_quote side q [] = none
  last_quote side q (l ∷ ls) = or_earlier (last_quote side q ls) (quoted side q (parse_level l))

  -- The last positive amount that a batch gives for price `q`.
  abbrev pub last_positive : Side → F → List L → Option F
  last_positive side q [] = none
  last_positive side q (l ∷ ls) =
      or_earlier (last_positive side q ls) (positive (quoted side q (parse_level l)))

module _ {ℓ} {F : Type ℓ} ⦃f : Float F⦄ (p : IsPreorder f.cmp) where
  pub get-update_entry :
      (side : Side) (e : Option (F × F)) (m : LevelMap F F) (q : F)
      → IsOrdered (side_cmp side) m
      → get (side_cmp side) q (update_entry side e m)
        ≡ settled (quoted side q e) (get (side_cmp side) q m)
  unfolding update_entry
  get-update_entry side none m q o = refl
  get-update_entry side (some (price, amount)) m q o =
      let r = side_cmp-IsPreorder p side in
      ground (arith, get-insert r m price q amount, get-remove r m price q o)

  get-snapshot_entry :
      (side : Side) (e : Option (F × F)) (m : LevelMap F F) (q : F)
      → get (side_cmp side) q (snapshot_entry side e m)
        ≡ or_earlier (positive (quoted side q e)) (get (side_cmp side) q m)
  unfolding snapshot_entry
  get-snapshot_entry side none m q = refl
  get-snapshot_entry side (some (price, amount)) m q =
      let r = side_cmp-IsPreorder p side in ground (arith, get-insert r m price q amount)

  module _ {κ} {L : Type κ} (parse_level : L → Option (F × F)) where
    pub get-update_levels :
        (side : Side) (levels : List L) (m : LevelMap F F) (q : F)
        → IsSideValid side m
        → get (side_cmp side) q (update_levels parse_level side levels m)
          ≡ settled (last_quote parse_level side q levels) (get (side_cmp side) q m)
    unfolding update_levels
    get-update_levels side [] m q v = refl
    get-update_levels side (l ∷ ls) m q v =
        let e = parse_level l in
        ground (
          arith,
          get-update_levels side ls (update_entry side e m) q
              (update_entry-IsSideValid p side e m v),
          get-update_entry side e m q v.ordered,
        )

    get-snapshot_levels :
        (side : Side) (levels : List L) (m : LevelMap F F) (q : F)
        → get (side_cmp side) q (snapshot_levels parse_level side levels m)
          ≡ or_earlier (last_positive parse_level side q levels) (get (side_cmp side) q m)
    unfolding snapshot_levels
    get-snapshot_levels side [] m q = refl
    get-snapshot_levels side (l ∷ ls) m q =
        let e = parse_level l in
        ground (
          arith,
          get-snapshot_levels side ls (snapshot_entry side e m) q,
          get-snapshot_entry side e m q,
        )

module _ {ℓ κ} {F : Type ℓ} {L : Type κ} ⦃f : Float F⦄ (format : LevelFormat F L)
    (p : IsPreorder f.cmp) where
  -- After an update of a side of a valid book, the amount at a price is what the last level of the
  -- batch for that price says (none, if that amount is 0.0), and what it was if no level names it. The
  -- other side stays as it is.
  pub amount_at-apply_update :
      (book : OrderBook F) (levels : List L) (side : Side) (q : F)
      → IsValid book
      → (amount_at (apply_update format book levels side) side q
          ≡ settled (last_quote format.parse_level side q levels) (amount_at book side q))
        × (side_levels (apply_update format book levels side) (opposite side)
            ≡ side_levels book (opposite side))
  unfolding apply_update
  amount_at-apply_update book levels bid q v =
      (get-update_levels p format.parse_level bid levels book.bids q v.bids_valid, refl)
  amount_at-apply_update book levels ask q v =
      (get-update_levels p format.parse_level ask levels book.asks q v.asks_valid, refl)

  -- After a snapshot of a side, the amount at a price is the last positive amount of the batch for
  -- that price, whatever the book held before. The other side stays as it is.
  pub amount_at-apply_snapshot :
      (book : OrderBook F) (levels : List L) (side : Side) (q : F)
      → (amount_at (apply_snapshot format book levels side) side q
          ≡ last_positive format.parse_level side q levels)
        × (side_levels (apply_snapshot format book levels side) (opposite side)
            ≡ side_levels book (opposite side))
  unfolding apply_snapshot get
  amount_at-apply_snapshot book levels bid q =
      (ground (arith, get-snapshot_levels p format.parse_level bid levels [] q), refl)
  amount_at-apply_snapshot book levels ask q =
      (ground (arith, get-snapshot_levels p format.parse_level ask levels [] q), refl)
