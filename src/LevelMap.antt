-- ===== src/LevelMap.antt =====
-- `BTreeMap` of the standard library, as the order books use it: the entries in key order under a
-- comparison, which is `OrderedFloat::cmp` for asks and its reverse for bids.
pub mod Order
pub mod Lookup
pub mod Size
pub mod Cover
use cryptomeria.Common.{
  List, [], ◌∷◌, Bool, true, false, Option, none, some, Ordering, lt, eq, gt, map,
}

abbrev pub LevelMap {ℓ κ} : Type ℓ → Type κ → Type (ℓ ⊔ κ)
LevelMap K V = List (K × V)

-- `std::cmp::Reverse`
abbrev pub reverse_cmp {ℓ} : {K : Type ℓ} → (K → K → Ordering) → K → K → Ordering
reverse_cmp cmp a b = cmp b a

module _ {ℓ κ} {K : Type ℓ} {V : Type κ} where
  -- `first_key_value().map(|(k, _)| k)`
  abbrev pub first_key : LevelMap K V → Option K
  first_key [] = none
  first_key ((k, v) ∷ m) = some k

  -- `BTreeMap::values`
  abbrev pub values : LevelMap K V → List V
  values = map (λ e. e.1)

module _ {ℓ κ} {K : Type ℓ} {V : Type κ} (cmp : K → K → Ordering) where
  unfoldable pub get : K → LevelMap K V → Option V
  get k [] = none
  get k ((j, w) ∷ m) = elim (cmp k j) [ lt ↦ none | eq ↦ some w | gt ↦ get k m ]

  unfoldable pub contains_key : K → LevelMap K V → Bool
  contains_key k [] = false
  contains_key k ((j, w) ∷ m) = elim (cmp k j) [ lt ↦ false | eq ↦ true | gt ↦ contains_key k m ]

  -- An equal key keeps the key that is there, and takes the new value.
  unfoldable pub insert : K → V → LevelMap K V → LevelMap K V
  insert k v [] = (k, v) ∷ []
  insert k v ((j, w) ∷ m) = elim (cmp k j) [
    | lt ↦ (k, v) ∷ (j, w) ∷ m
    | eq ↦ (j, v) ∷ m
    | gt ↦ (j, w) ∷ insert k v m
  ]

  unfoldable pub remove : K → LevelMap K V → LevelMap K V
  remove k [] = []
  remove k ((j, w) ∷ m) = elim (cmp k j) [ lt ↦ (j, w) ∷ m | eq ↦ m | gt ↦ (j, w) ∷ remove k m ]
