-- ===== src/Book/Depth.antt =====
-- The number of levels of a side under a `MaxLevel` filter.
use cryptomeria.Common.{
  ℕ, suc, ◌+◌, ◌≤◌, ◌<◌, List, [], ◌∷◌, true, false, Option, none, some, ◌≡◌, refl, ap, arith,
  length, length-take, map,
}
use cryptomeria.Float.{Float, feq}
use cryptomeria.LevelMap.{LevelMap, insert, contains_key}
use cryptomeria.LevelMap.Size.{length-insert}
use cryptomeria.Traits.Filter.{max_level, should_include}
use cryptomeria.Book.{
  Side, bid, ask, OrderBook, LevelFormat, side_cmp, side_levels, with_side, snapshot_entry,
  snapshot_levels, apply_snapshot, update_entry, update_levels, apply_update,
}
use cryptomeria.Book.Filters.{filter_snapshot_levels, filter_levels, find_best_price, passes_update}
use cryptomeria.Book.Messages.{snapshot, update, process_side}

length-map {ℓ κ} :
    {A : Type ℓ} {B : Type κ} (g : A → B) (xs : List A) → length (map g xs) ≡ length xs
length-map g [] = refl
length-map g (x ∷ xs) = ap suc (length-map g xs)

module _ {ℓ} {F : Type ℓ} ⦃f : Float F⦄ where
  length-snapshot_entry :
      (side : Side) (e : Option (F × F)) (m : LevelMap F F)
      → length (snapshot_entry side e m) ≤ suc (length m)
  unfolding snapshot_entry
  length-snapshot_entry side none m = omega arith
  length-snapshot_entry side (some (price, amount)) m =
      ground (arith, length-insert (side_cmp side) m price amount)

  pub length-snapshot_levels {κ} :
      {L : Type κ} (parse_level : L → Option (F × F)) (side : Side) (levels : List L)
      (m : LevelMap F F)
      → length (snapshot_levels parse_level side levels m) ≤ length levels + length m
  unfolding snapshot_levels
  length-snapshot_levels parse_level side [] m = omega arith
  length-snapshot_levels parse_level side (l ∷ ls) m = omega (
    arith,
    length-snapshot_entry side (parse_level l) m,
    length-snapshot_levels parse_level side ls (snapshot_entry side (parse_level l) m),
  )

  side_levels-with_side :
      (book : OrderBook F) (side : Side) (m : LevelMap F F)
      → side_levels (with_side book side m) side ≡ m
  side_levels-with_side book bid m = refl
  side_levels-with_side book ask m = refl

module _ {ℓ κ} {F : Type ℓ} {L : Type κ} ⦃f : Float F⦄ (format : LevelFormat F L) where
  length-filter_snapshot_levels :
      (book : OrderBook F) (levels : List L) (side : Side) (max : ℕ) (best : Option F)
      → length (filter_snapshot_levels format book levels side (max_level max) best) ≤ max
  unfolding filter_snapshot_levels
  length-filter_snapshot_levels book levels side max best = rw length-map (length-take max _)

  -- A snapshot under `MaxLevel(max)` leaves at most `max` levels on its side, if there were no more
  -- before.
  pub process_side-snapshot_depth :
      (book : OrderBook F) (side : Side) (levels : List L) (max : ℕ)
      → length (side_levels book side) ≤ max
      → length
          (side_levels (process_side format book snapshot side levels (some (max_level max))) side)
        ≤ max
  unfolding process_side apply_snapshot
  process_side-snapshot_depth book side levels max h =
      let best = find_best_price format levels side in
      let kept = filter_snapshot_levels format book levels side (max_level max) best in
      ground (
        arith,
        length-filter_snapshot_levels book levels side max best,
        length-snapshot_levels format.parse_level side kept [],
        side_levels-with_side book side (snapshot_levels format.parse_level side kept []),
      )

module _ {ℓ κ} {F : Type ℓ} {L : Type κ} ⦃f : Float F⦄ (format : LevelFormat F L) where
  -- Every level of the batch reads as a price that is not in the map, nor at an earlier level, with
  -- an amount other than 0.0.
  abbrev pub IsFresh : Side → LevelMap F F → List L → Type ℓ
  IsFresh side m [] = Unit
  IsFresh side m (l ∷ ls) =
      (e : F × F) × (format.parse_level l ≡ some e)
      × (format.view_level l ≡ some e)
      × (feq e.1 f.nought ≡ false)
      × (contains_key (side_cmp side) e.0 m ≡ false)
      × IsFresh side (insert (side_cmp side) e.0 e.1 m) ls

  update_entry-new :
      (side : Side) (e : F × F) (m : LevelMap F F)
      → feq e.1 f.nought ≡ false
      → update_entry side (some e) m ≡ insert (side_cmp side) e.0 e.1 m
  unfolding update_entry
  update_entry-new side e m nz = rw nz

  length-update_levels-IsFresh :
      (side : Side) (levels : List L) (m : LevelMap F F)
      → IsFresh side m levels
      → length (update_levels format.parse_level side levels m) ≡ length m + length levels
  unfolding update_levels
  length-update_levels-IsFresh side [] m h = omega arith
  length-update_levels-IsFresh side (l ∷ ls) m (e, parsed, viewed, nz, new, rest) =
      let m' = insert (side_cmp side) e.0 e.1 m in
      rw (parsed, update_entry-new side e m nz)
        (ground (
          arith,
          length-update_levels-IsFresh side ls m' rest,
          length-insert (side_cmp side) m e.0 e.1,
        ))

  passes_update-room :
      (book : OrderBook F) (side : Side) (max : ℕ) (l : L) (e : F × F)
      → format.view_level l ≡ some e
      → length (side_levels book side) < max
      → passes_update format book side (max_level max) l ≡ true
  unfolding should_include
  passes_update-room book side max l e viewed room = ground arith

  filter_levels-room :
      (book : OrderBook F) (side : Side) (max : ℕ) (m : LevelMap F F) (levels : List L)
      → length (side_levels book side) < max
      → IsFresh side m levels
      → filter_levels format book levels side (max_level max) ≡ levels
  unfolding filter_levels
  filter_levels-room book side max m [] room h = refl
  filter_levels-room book side max m (l ∷ ls) room (e, parsed, viewed, nz, new, rest) =
      rw (passes_update-room book side max l e viewed room) (
        ap (◌∷◌ l)
          (filter_levels-room book side max (insert (side_cmp side) e.0 e.1 m) ls room rest))

  -- The filter of an update compares the count of levels before the message with `max` and does not
  -- count along: if a side has room for one level, all new levels of one update enter, however many
  -- they are, and the side may end above `max`.
  pub process_side-update_overshoots :
      (book : OrderBook F) (side : Side) (levels : List L) (max : ℕ)
      → length (side_levels book side) < max
      → IsFresh side (side_levels book side) levels
      → length
          (side_levels (process_side format book update side levels (some (max_level max))) side)
        ≡ length (side_levels book side) + length levels
  unfolding process_side apply_update
  process_side-update_overshoots book side [] max room h = omega arith
  process_side-update_overshoots book side (l ∷ ls) max room h =
      let m = side_levels book side in
      rw (filter_levels-room book side max m (l ∷ ls) room h) (
        rw (side_levels-with_side book side (update_levels format.parse_level side (l ∷ ls) m))
          (length-update_levels-IsFresh side (l ∷ ls) m h))
