-- ===== src/LevelMap/Size.antt =====
-- The number of entries.
use cryptomeria.Common.{◌+◌, ◌≤◌, [], ◌∷◌, Ordering, ◌≡◌, refl, arith, length, if◌then◌else◌}
use cryptomeria.LevelMap.{LevelMap, contains_key, insert, remove}

module _ {ℓ κ} {K : Type ℓ} {V : Type κ} (cmp : K → K → Ordering) where
  pub length-insert :
      (m : LevelMap K V) (k : K) (v : V)
      → length (insert cmp k v m) ≡ (if contains_key cmp k m then length m else length m + 1)
  unfolding insert contains_key
  length-insert [] k v = refl
  length-insert ((j, w) ∷ m) k v = ground (arith, length-insert m k v)

  pub length-remove : (m : LevelMap K V) (k : K) → length (remove cmp k m) ≤ length m
  unfolding remove
  length-remove [] k = ground arith
  length-remove ((j, w) ∷ m) k = ground (arith, length-remove m k)
