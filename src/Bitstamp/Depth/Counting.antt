-- ===== src/Bitstamp/Depth/Counting.antt =====
-- The map of a side while a diff that was filtered by `MaxLevel` is applied to it.
use cryptomeria.Common.{
  ℕ, suc, ◌+◌, ◌≤◌, ◌<◌, List, [], ◌∷◌, Bool, true, false, Option, none, some, String, Ordering,
  ◌≡◌, inl, inr, arith, length, Bool-cases, not,
}
use cryptomeria.Float.{Float, feq, IsPreorder}
use cryptomeria.LevelMap.{LevelMap, contains_key, insert, remove}
use cryptomeria.LevelMap.Order.{IsOrdered, insert-IsOrdered, remove-IsOrdered}
use cryptomeria.LevelMap.Size.{length-insert}
use cryptomeria.LevelMap.Cover.{
  Covers, contains_key-insert, contains_key-remove, contains_key-eq, length-Covers,
}
use cryptomeria.Traits.Filter.{max_level, should_include}
use cryptomeria.Book.{Side, side_cmp, update_entry, update_levels}
use cryptomeria.Book.Invariant.{side_cmp-IsPreorder}
use cryptomeria.Bitstamp.Lob.{OrderBook, side_levels, parse_pair}
use cryptomeria.Bitstamp.Filters.{filter_diff_side, diff_passes, is_known, add_if}

module _ {ℓ} {K : Type ℓ} {V : Type ℓ} {cmp : K → K → Ordering} (p : IsPreorder cmp) where
  Covers-remove :
      (u m : LevelMap K V) (k : K)
      → IsOrdered cmp m
      → Covers cmp u m
      → Covers cmp u (remove cmp k m)
  Covers-remove u m k o c q h = ground (arith, contains_key-remove p m k q o, c q)

  Covers-insert_known :
      (u m : LevelMap K V) (k : K) (v : V)
      → contains_key cmp k u ≡ true
      → Covers cmp u m
      → Covers cmp u (insert cmp k v m)
  Covers-insert_known u m k v known c q h =
      ground (arith, contains_key-insert p m k q v, contains_key-eq p u k q, c q)

  Covers-insert_new :
      (u m : LevelMap K V) (k : K) (v : V) → Covers cmp u m → Covers cmp (insert cmp k v u) m
  Covers-insert_new u m k v c q h = ground (arith, contains_key-insert p u k q v, c q)

  Covers-insert_both :
      (u m : LevelMap K V) (k : K) (v : V)
      → Covers cmp u m
      → Covers cmp (insert cmp k v u) (insert cmp k v m)
  Covers-insert_both u m k v c q h =
      ground (arith, contains_key-insert p u k q v, contains_key-insert p m k q v, c q)

  length-insert_le : (u : LevelMap K V) (k : K) (v : V) → length (insert cmp k v u) ≤ suc (length u)
  length-insert_le u k v = ground (arith, length-insert cmp u k v)

module _ {ℓ} {F : Type ℓ} ⦃f : Float F⦄ where
  -- the amount of a level is written, and not removed
  diff_passes-room :
      (book : OrderBook F) (max : ℕ) (side : Side) (count : ℕ) (price amount : F)
      → feq amount f.nought ≡ false
      → is_known book side (some (price, amount)) ≡ false
      → diff_passes book (max_level max) side count (some (price, amount)) ≡ true
      → count < max
  unfolding should_include
  diff_passes-room book max side count price amount nz new h = ground arith

module _ {ℓ} {F : Type ℓ} ⦃f : Float F⦄ (p : IsPreorder f.cmp) (book : OrderBook F) (max : ℕ)
    (side : Side) where
  -- The map `m` while a diff is applied, inside a map `u` that also covers the book that the filter
  -- looks at and has as many entries as the filter has counted, or fewer.
  pub record Within (count : ℕ) (u m : LevelMap F F) : Type ℓ where
    pub ordered_u : IsOrdered (side_cmp side) u
    pub ordered_m : IsOrdered (side_cmp side) m
    pub covers_m : Covers (side_cmp side) u m
    pub covers_book : Covers (side_cmp side) u (side_levels book side)
    pub counted : length u ≤ count
    pub bounded : length u ≤ max

  Within-grown :
      (count : ℕ) (b : Bool) (u m : LevelMap F F) → Within count u m → Within (add_if b count) u m
  Within-grown count true u m w = record {
    ordered_u = w.ordered_u;
    ordered_m = w.ordered_m;
    covers_m = w.covers_m;
    covers_book = w.covers_book;
    counted = omega (arith, w.counted);
    bounded = w.bounded;
  }
  Within-grown count false u m w = w

  Within-remove :
      (count : ℕ) (u m : LevelMap F F) (price : F)
      → Within count u m
      → Within count u (remove (side_cmp side) price m)
  Within-remove count u m price w =
      let r = side_cmp-IsPreorder p side in
      record {
        ordered_u = w.ordered_u;
        ordered_m = remove-IsOrdered r m price w.ordered_m;
        covers_m = Covers-remove r u m price w.ordered_m w.covers_m;
        covers_book = w.covers_book;
        counted = w.counted;
        bounded = w.bounded;
      }

  Within-insert_known :
      (count : ℕ) (u m : LevelMap F F) (price amount : F)
      → is_known book side (some (price, amount)) ≡ true
      → Within count u m
      → Within count u (insert (side_cmp side) price amount m)
  Within-insert_known count u m price amount known w =
      let r = side_cmp-IsPreorder p side in
      record {
        ordered_u = w.ordered_u;
        ordered_m = insert-IsOrdered r m price amount w.ordered_m;
        covers_m = Covers-insert_known r u m price amount (w.covers_book price known) w.covers_m;
        covers_book = w.covers_book;
        counted = w.counted;
        bounded = w.bounded;
      }

  Within-insert_new :
      (count : ℕ) (u m : LevelMap F F) (price amount : F)
      → count < max
      → Within count u m
      → Within
          (count + 1)
          (insert (side_cmp side) price amount u)
          (insert (side_cmp side) price amount m)
  Within-insert_new count u m price amount room w =
      let r = side_cmp-IsPreorder p side in
      record {
        ordered_u = insert-IsOrdered r u price amount w.ordered_u;
        ordered_m = insert-IsOrdered r m price amount w.ordered_m;
        covers_m = Covers-insert_both r u m price amount w.covers_m;
        covers_book = Covers-insert_new r u (side_levels book side) price amount w.covers_book;
        counted = omega (arith, w.counted, length-insert_le r u price amount);
        bounded = omega (arith, w.counted, length-insert_le r u price amount);
      }

  -- one level that passes the filter, applied
  Within-update_entry :
      (count : ℕ) (u m : LevelMap F F) (e : F × F)
      → diff_passes book (max_level max) side count (some e) ≡ true
      → Within count u m
      → (u' : LevelMap F F) × Within
          (add_if (not (is_known book side (some e))) count)
          u'
          (update_entry side (some e) m)
  unfolding update_entry
  Within-update_entry count u m (price, amount) passes w = elim (Bool-cases (feq amount f.nought)) [
    | inl z ↦ (u, rw z (Within-grown count _ u _ (Within-remove count u m price w)))
    | inr nz ↦ elim (Bool-cases (is_known book side (some (price, amount)))) [
      | inl known ↦ (u, rw (nz, known) (Within-insert_known count u m price amount known w))
      | inr new ↦ (
        insert (side_cmp side) price amount u,
        rw (nz, new)
            (Within-insert_new count u m price amount
              (diff_passes-room book max side count price amount nz new passes) w),
      )
    ]
  ]

  Within-update_read :
      (count : ℕ) (u m : LevelMap F F) (e : Option (F × F))
      → diff_passes book (max_level max) side count e ≡ true
      → Within count u m
      → (u' : LevelMap F F) × Within
          (add_if (not (is_known book side e)) count)
          u'
          (update_entry side e m)
  Within-update_read count u m none passes w = cc
  Within-update_read count u m (some e) passes w = Within-update_entry count u m e passes w

  length-Within : (count : ℕ) (u m : LevelMap F F) → Within count u m → length m ≤ max
  length-Within count u m w = omega (
    arith,
    length-Covers (side_cmp-IsPreorder p side) u m w.ordered_u w.ordered_m w.covers_m,
    w.bounded,
  )

  pub length-filter_diff_side :
      (levels : List (String × String)) (count : ℕ) (u m : LevelMap F F)
      → Within count u m
      → length (
          update_levels parse_pair side (filter_diff_side book (max_level max) side count levels) m)
        ≤ max
  unfolding filter_diff_side update_levels
  length-filter_diff_side [] count u m w = length-Within count u m w
  length-filter_diff_side (l ∷ ls) count u m w =
      elim (Bool-cases (diff_passes book (max_level max) side count (parse_pair l))) [
        | inr fails ↦ rw fails (length-filter_diff_side ls count u m w)
        | inl passes ↦
            let (u', w') = Within-update_read count u m (parse_pair l) passes w in
            rw passes (
              length-filter_diff_side ls (add_if (not (is_known book side (parse_pair l))) count) u'
                (update_entry side (parse_pair l) m) w')
      ]
