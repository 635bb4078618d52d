-- ===== src/Bitstamp/Depth.antt =====
-- The number of levels of a side of the Bitstamp book under a `MaxLevel` filter.
mod Counting
use text.Mathlib.Text.{starts_with}
use cryptomeria.Common.{
  ℕ, zero, suc, ◌+◌, ◌≤◌, ◌<◌, List, [], ◌∷◌, Bool, true, false, Option, none, some, String,
  Ordering, eq, ◌≡◌, ◌⊎◌, inl, inr, refl, arith, length, length-take_le, take, Bool-cases,
  Option-cases, if◌then◌else◌, ◌&&◌, not, subst,
}
use cryptomeria.Float.{Float, feq, fgt, IsPreorder}
use cryptomeria.LevelMap.{LevelMap, contains_key, insert, remove}
use cryptomeria.LevelMap.Order.{IsOrdered, insert-IsOrdered, remove-IsOrdered}
use cryptomeria.LevelMap.Size.{length-insert}
use cryptomeria.LevelMap.Cover.{
  Covers, contains_key-insert, contains_key-remove, contains_key-eq, length-Covers,
}
use cryptomeria.Traits.Filter.{LobFilter, max_level, should_include}
use cryptomeria.Book.{Side, bid, ask, side_cmp, update_entry, update_levels, snapshot_levels}
use cryptomeria.Book.Invariant.{side_cmp-IsPreorder, IsSideValid}
use cryptomeria.Book.Depth.{length-snapshot_levels}
use cryptomeria.Bitstamp.Types.{
  BitstampWsMessage, OrderEntry, OrderBookData, MessageType, message_type, l2_snapshot, l2_update,
  channel_starts,
}
use cryptomeria.Bitstamp.Lob.{OrderBook, side_levels, apply_snapshot, apply_diff, parse_pair}
use cryptomeria.Bitstamp.Filters.{
  filter_snapshot_side, filter_snapshot, snapshot_passes, filter_diff_side, filter_diff,
  diff_passes, is_known, add_if,
}
use cryptomeria.Bitstamp.Invariant.{IsValid}
use cryptomeria.Bitstamp.Messages.{
  take_snapshot, take_diff, take_update, dispatch, process_content, process_msg,
}
use Counting.{Within, length-filter_diff_side}

-- Neither side has more than `max` levels.
abbrev pub IsBounded {ℓ} : {F : Type ℓ} → ℕ → OrderBook F → Type 0
IsBounded max book = (length book.bids ≤ max) × (length book.asks ≤ max)

module _ {ℓ} {F : Type ℓ} ⦃f : Float F⦄ (p : IsPreorder f.cmp) where
  filtered_diff-IsBounded :
      (book : OrderBook F) (max : ℕ) (ob : OrderBookData)
      → IsValid book
      → IsBounded max book
      → IsBounded max (apply_diff book (filter_diff book ob (max_level max)))
  unfolding apply_diff filter_diff
  filtered_diff-IsBounded book max ob v b = (
    length-filter_diff_side p book max bid ob.bids (length book.bids) book.bids book.bids
        (start bid v.bids_valid.ordered b.0),
    length-filter_diff_side p book max ask ob.asks (length book.asks) book.asks book.asks
        (start ask v.asks_valid.ordered b.1),
  )
    where
      start :
          (side : Side)
          → IsOrdered (side_cmp side) (side_levels book side)
          → length (side_levels book side) ≤ max
          → Within p book max side
              (length (side_levels book side))
              (side_levels book side)
              (side_levels book side)
      start side o h = record {
        ordered_u = o;
        ordered_m = o;
        covers_m = λ q k. k;
        covers_book = λ q k. k;
        counted = omega arith;
        bounded = h;
      }

module _ {ℓ} {F : Type ℓ} ⦃f : Float F⦄ where
  snapshot_passes-room :
      (max : ℕ) (bb ba : Option F) (side : Side) (count : ℕ) (e : Option (F × F))
      → snapshot_passes (max_level max) bb ba side count e ≡ true
      → count < max
  unfolding should_include
  snapshot_passes-room max bb ba side count none h = cc
  snapshot_passes-room max bb ba side count (some (price, amount)) h = ground arith

  length-filter_snapshot_side :
      (max : ℕ) (bb ba : Option F) (side : Side) (count : ℕ) (levels : List (String × String))
      → count ≤ max
      → length (filter_snapshot_side (max_level max) bb ba side count levels) + count ≤ max
  unfolding filter_snapshot_side
  length-filter_snapshot_side max bb ba side count [] h = omega arith
  length-filter_snapshot_side max bb ba side count (l ∷ ls) h =
      elim (Bool-cases (snapshot_passes (max_level max) bb ba side count (parse_pair l))) [
        | inr fails ↦ rw fails (length-filter_snapshot_side max bb ba side count ls h)
        | inl passes ↦
            let room = snapshot_passes-room max bb ba side count (parse_pair l) passes in
            rw passes (
              omega
                (arith, length-filter_snapshot_side max bb ba side (count + 1) ls (omega arith)))
      ]

  length-snapshot_side :
      (max depth : ℕ) (bb ba : Option F) (side : Side) (levels : List (String × String))
      → length (
          snapshot_levels
            (parse_pair {F = F})
            side
            (take depth (filter_snapshot_side (max_level max) bb ba side 0 levels))
            [])
        ≤ max
  length-snapshot_side max depth bb ba side levels =
      let kept = filter_snapshot_side (max_level max) bb ba side 0 levels in
      omega (
        arith,
        length-snapshot_levels (parse_pair {F = F}) side (take depth kept) [],
        length-take_le depth kept,
        length-filter_snapshot_side max bb ba side 0 levels (omega arith),
      )

module _ {ℓ} {F : Type ℓ} ⦃f : Float F⦄ (p : IsPreorder f.cmp) where
  filtered_snapshot-IsBounded :
      (book : OrderBook F) (max : ℕ) (ob : OrderBookData)
      → IsBounded max (apply_snapshot book (filter_snapshot book ob (max_level max)))
  unfolding apply_snapshot filter_snapshot
  filtered_snapshot-IsBounded book max ob = (
    length-snapshot_side max book.snapshot_depth _ _ bid ob.bids,
    length-snapshot_side max book.snapshot_depth _ _ ask ob.asks,
  )

  module _ {κ} {V : Type κ} (book_of : V → Option OrderBookData) (entry_of : V → Option OrderEntry)
      (max : ℕ) (book : OrderBook F) (v : IsValid book) (b : IsBounded max book) where
    take_snapshot-IsBounded :
        (ob : Option OrderBookData) → IsBounded max (take_snapshot book (some (max_level max)) ob)
    take_snapshot-IsBounded none = b
    take_snapshot-IsBounded (some ob) = filtered_snapshot-IsBounded book max ob

    take_diff-IsBounded :
        (ob : Option OrderBookData) → IsBounded max (take_diff book (some (max_level max)) ob)
    take_diff-IsBounded none = b
    take_diff-IsBounded (some ob) = filtered_diff-IsBounded p book max ob v b

    take_update-IsBounded :
        (channel : Option String) (d : V)
        → channel_starts channel "live_orders_" ≡ false
        → IsBounded max (take_update book_of entry_of book (some (max_level max)) channel d)
    take_update-IsBounded none d h = b
    take_update-IsBounded (some channel) d h = rw h (take_diff-IsBounded (book_of d))

    dispatch-IsBounded :
        (type : MessageType) (channel : Option String) (d : V)
        → channel_starts channel "live_orders_" ≡ false
        → IsBounded max (dispatch book_of entry_of book (some (max_level max)) type channel d)
    dispatch-IsBounded l2_snapshot channel d h = take_snapshot-IsBounded (book_of d)
    dispatch-IsBounded l2_update channel d h = take_update-IsBounded channel d h
    dispatch-IsBounded _ channel d h = b

    process_content-IsBounded :
        (type : MessageType) (channel : Option String) (d : Option V)
        → channel_starts channel "live_orders_" ≡ false
        → IsBounded max
            (process_content book_of entry_of book (some (max_level max)) type channel d)
    process_content-IsBounded type channel none h = b
    process_content-IsBounded type channel (some d) h = dispatch-IsBounded type channel d h

    -- Under a `MaxLevel(max)` filter, a valid Bitstamp book with at most `max` levels on each side
    -- still has at most `max` on each side after any message that is not of a `live_orders_`
    -- channel.
    pub process_msg-IsBounded :
        (msg : BitstampWsMessage V)
        → channel_starts msg.channel "live_orders_" ≡ false
        → IsBounded max (process_msg book_of entry_of book msg (some (max_level max)))
    unfolding process_msg
    process_msg-IsBounded msg h =
        process_content-IsBounded (message_type msg) msg.channel msg.content h
