-- ===== src/Book/Invariant.antt =====
-- The invariant of an order book, and that every message keeps it.
use cryptomeria.Common.{
  List, [], ◌∷◌, false, none, some, false, Option, String, ◌≡◌, inl, inr, arith, All, Bool-cases,
  if◌then◌else◌, is_empty,
}
use cryptomeria.Float.{Float, feq, fgt, IsPreorder}
use cryptomeria.LevelMap.{LevelMap, insert, remove}
use cryptomeria.LevelMap.Order.{
  IsOrdered, insert-IsOrdered, remove-IsOrdered, All-insert, All-remove, reverse_cmp-IsPreorder,
}
use cryptomeria.Traits.Filter.{LobFilter}
use cryptomeria.Book.{
  Side, bid, ask, OrderBook, new, LevelFormat, side_cmp, side_levels, with_side, snapshot_entry,
  snapshot_levels, apply_snapshot, update_entry, update_levels, apply_update,
}
use cryptomeria.Book.Messages.{
  Action, snapshot, update, other, read_action, filtered, apply_action, process_side, process_msg,
}

module _ {ℓ} {F : Type ℓ} ⦃f : Float F⦄ where
  -- The amounts of a map are not 0.0.
  abbrev pub IsNonZero : LevelMap F F → Type 0
  IsNonZero m = All (λ e. feq e.1 f.nought ≡ false) m

  -- One side: prices strictly in the order of the side, and no level of amount 0.0.
  pub record IsSideValid (side : Side) (m : LevelMap F F) : Type 0 where
    pub ordered : IsOrdered (side_cmp side) m
    pub nonzero : IsNonZero m

  pub record IsValid (book : OrderBook F) : Type 0 where
    pub bids_valid : IsSideValid bid book.bids
    pub asks_valid : IsSideValid ask book.asks

  pub new-IsValid : IsValid new
  new-IsValid = record {
    bids_valid = record { ordered = tt; nonzero = tt };
    asks_valid = record { ordered = tt; nonzero = tt };
  }

  pub side_cmp-IsPreorder : IsPreorder f.cmp → (side : Side) → IsPreorder {K = F} (side_cmp side)
  side_cmp-IsPreorder p bid = reverse_cmp-IsPreorder p
  side_cmp-IsPreorder p ask = p

  pub IsValid-side :
      (book : OrderBook F) (side : Side) → IsValid book → IsSideValid side (side_levels book side)
  IsValid-side book bid v = v.bids_valid
  IsValid-side book ask v = v.asks_valid

  pub with_side-IsValid :
      (book : OrderBook F) (side : Side) (m : LevelMap F F)
      → IsValid book
      → IsSideValid side m
      → IsValid (with_side book side m)
  with_side-IsValid book bid m v s = record { bids_valid = s; asks_valid = v.asks_valid }
  with_side-IsValid book ask m v s = record { bids_valid = v.bids_valid; asks_valid = s }

module _ {ℓ} {F : Type ℓ} ⦃f : Float F⦄ (p : IsPreorder f.cmp) where
  pub insert-IsSideValid :
      (side : Side) (m : LevelMap F F) (price amount : F)
      → feq amount f.nought ≡ false
      → IsSideValid side m
      → IsSideValid side (insert (side_cmp side) price amount m)
  insert-IsSideValid side m price amount n v = record {
    ordered = insert-IsOrdered (side_cmp-IsPreorder p side) m price amount v.ordered;
    nonzero = All-insert (side_cmp side) (λ a. feq a f.nought ≡ false) m price amount n v.nonzero;
  }

  pub remove-IsSideValid :
      (side : Side) (m : LevelMap F F) (price : F)
      → IsSideValid side m
      → IsSideValid side (remove (side_cmp side) price m)
  remove-IsSideValid side m price v = record {
    ordered = remove-IsOrdered (side_cmp-IsPreorder p side) m price v.ordered;
    nonzero = All-remove (side_cmp side) (λ e. feq e.1 f.nought ≡ false) m price v.nonzero;
  }

module _ {ℓ} {F : Type ℓ} ⦃f : Float F⦄ (p : IsPreorder f.cmp) where
  snapshot_entry-IsSideValid :
      (side : Side) (e : Option (F × F)) (m : LevelMap F F)
      → IsSideValid side m
      → IsSideValid side (snapshot_entry side e m)
  unfolding snapshot_entry
  snapshot_entry-IsSideValid side none m v = v
  snapshot_entry-IsSideValid side (some (price, amount)) m v =
      elim (Bool-cases (fgt amount f.nought)) [
        | inl pos ↦ rw pos (insert-IsSideValid p side m price amount (ground arith) v)
        | inr not_pos ↦ rw not_pos v
      ]

  pub update_entry-IsSideValid :
      (side : Side) (e : Option (F × F)) (m : LevelMap F F)
      → IsSideValid side m
      → IsSideValid side (update_entry side e m)
  unfolding update_entry
  update_entry-IsSideValid side none m v = v
  update_entry-IsSideValid side (some (price, amount)) m v =
      elim (Bool-cases (feq amount f.nought)) [
        | inl z ↦ rw z (remove-IsSideValid p side m price v)
        | inr nz ↦ rw nz (insert-IsSideValid p side m price amount nz v)
      ]

  module _ {κ} {L : Type κ} (parse_level : L → Option (F × F)) where
    pub snapshot_levels-IsSideValid :
        (side : Side) (levels : List L) (m : LevelMap F F)
        → IsSideValid side m
        → IsSideValid side (snapshot_levels parse_level side levels m)
    unfolding snapshot_levels
    snapshot_levels-IsSideValid side [] m v = v
    snapshot_levels-IsSideValid side (l ∷ ls) m v =
        snapshot_levels-IsSideValid side ls (snapshot_entry side (parse_level l) m)
          (snapshot_entry-IsSideValid side (parse_level l) m v)

    pub update_levels-IsSideValid :
        (side : Side) (levels : List L) (m : LevelMap F F)
        → IsSideValid side m
        → IsSideValid side (update_levels parse_level side levels m)
    unfolding update_levels
    update_levels-IsSideValid side [] m v = v
    update_levels-IsSideValid side (l ∷ ls) m v =
        update_levels-IsSideValid side ls (update_entry side (parse_level l) m)
          (update_entry-IsSideValid side (parse_level l) m v)

pub []-IsSideValid {ℓ} : {F : Type ℓ} ⦃f : Float F⦄ (side : Side) → IsSideValid {F = F} side []
[]-IsSideValid side = record { ordered = tt; nonzero = tt }

module _ {ℓ κ} {F : Type ℓ} {L : Type κ} ⦃f : Float F⦄ (format : LevelFormat F L)
    (p : IsPreorder f.cmp) where
  apply_action-IsValid :
      (book : OrderBook F) (action : Action) (side : Side) (levels : List L)
      → IsValid book
      → IsValid (apply_action format book action side levels)
  unfolding apply_snapshot apply_update
  apply_action-IsValid book snapshot side levels v =
      with_side-IsValid book side _ v
        (snapshot_levels-IsSideValid p format.parse_level side levels [] ([]-IsSideValid side))
  apply_action-IsValid book update side levels v =
      with_side-IsValid book side _ v
        (update_levels-IsSideValid p format.parse_level side levels _ (IsValid-side book side v))
  apply_action-IsValid book other side levels v = v

  process_side-IsValid :
      (book : OrderBook F) (action : Action) (side : Side) (levels : List L)
      (filter : Option (LobFilter F))
      → IsValid book
      → IsValid (process_side format book action side levels filter)
  unfolding process_side
  process_side-IsValid book action side [] filter v = v
  process_side-IsValid book action side (l ∷ ls) filter v =
      by_kept (filtered format book action side (l ∷ ls) filter)
    where
      by_kept :
          (kept : List L)
          → IsValid (if is_empty kept then book else apply_action format book action side kept)
      by_kept [] = v
      by_kept (k ∷ ks) = apply_action-IsValid book action side (k ∷ ks) v

  -- If the prices are totally preordered, every message, with every filter, keeps each side in its
  -- strict price order and free of levels of amount 0.0.
  pub process_msg-IsValid {μ} :
      {V : Type μ} (parse_levels : V → String → List L) (book : OrderBook F) (msg : List V)
      (action : Option String) (filter : Option (LobFilter F))
      → IsValid book
      → IsValid (process_msg format parse_levels book msg action filter)
  unfolding process_msg
  process_msg-IsValid parse_levels book [] action filter v = v
  process_msg-IsValid parse_levels book (d ∷ ds) action filter v =
      process_side-IsValid _ (read_action action) ask (parse_levels d "asks") filter
        (process_side-IsValid book (read_action action) bid (parse_levels d "bids") filter v)
