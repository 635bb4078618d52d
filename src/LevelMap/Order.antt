-- ===== src/LevelMap/Order.antt =====
-- The key order of a map, which `insert` and `remove` keep.
use cryptomeria.Common.{[], ◌∷◌, Ordering, lt, ◌≡◌, arith, All, All-imp}
use cryptomeria.Float.{IsPreorder, eq_right}
use cryptomeria.LevelMap.{LevelMap, insert, remove, reverse_cmp}

pub reverse_cmp-IsPreorder {ℓ} :
    {K : Type ℓ} {cmp : K → K → Ordering} → IsPreorder cmp → IsPreorder (reverse_cmp cmp)
reverse_cmp-IsPreorder {cmp} p = record {
  cmp_refl = p.cmp_refl;
  gt_of_lt = λ a b. p.gt_of_lt b a;
  lt_of_gt = λ a b. p.lt_of_gt b a;
  eq_symm = λ a b. p.eq_symm b a;
  lt_trans = λ a b c h k. p.lt_trans c b a k h;
  eq_left = λ a b c h. eq_right p a b c (p.eq_symm b a h);
}

module _ {ℓ κ} {K : Type ℓ} {V : Type κ} (cmp : K → K → Ordering) where
  -- every key of the map stands after `k`
  abbrev pub Above : K → LevelMap K V → Type 0
  Above k m = All (λ e. cmp k e.0 ≡ lt) m

  -- the keys rise strictly
  abbrev pub IsOrdered : LevelMap K V → Type 0
  IsOrdered [] = Unit
  IsOrdered ((k, v) ∷ m) = Above k m × IsOrdered m

  -- a property of the entries that holds of the new entry under any key that `insert` may keep
  pub All-insert {μ} :
      (P : V → Type μ) (m : LevelMap K V) (k : K) (v : V)
      → P v
      → All (λ e. P e.1) m
      → All (λ e. P e.1) (insert cmp k v m)
  unfolding insert
  All-insert P [] k v p a = (p, tt)
  All-insert P ((j, w) ∷ m) k v p a = ground (arith, All-insert P m k v p)

  pub All-remove {μ} :
      (P : K × V → Type μ) (m : LevelMap K V) (k : K) → All P m → All P (remove cmp k m)
  unfolding remove
  All-remove P [] k a = tt
  All-remove P ((j, w) ∷ m) k a = ground (arith, All-remove P m k)

module _ {ℓ κ} {K : Type ℓ} {V : Type κ} {cmp : K → K → Ordering} (p : IsPreorder cmp) where
  Above-insert :
      (m : LevelMap K V) (j k : K) (v : V)
      → cmp j k ≡ lt
      → Above cmp j m
      → Above cmp j (insert cmp k v m)
  unfolding insert
  Above-insert [] j k v h a = (h, tt)
  Above-insert ((i, w) ∷ m) j k v h a = ground (arith, Above-insert m j k v h)

  pub Above-trans : (m : LevelMap K V) (j k : K) → cmp j k ≡ lt → Above cmp k m → Above cmp j m
  Above-trans m j k h a = All-imp (λ e b. p.lt_trans j k e.0 h b) m a

  pub insert-IsOrdered :
      (m : LevelMap K V) (k : K) (v : V) → IsOrdered cmp m → IsOrdered cmp (insert cmp k v m)
  unfolding insert
  insert-IsOrdered [] k v s = (tt, tt)
  insert-IsOrdered ((j, w) ∷ m) k v s =
      ground
        (arith, insert-IsOrdered m k v s.1, Above-insert m j k v, Above-trans m k j, p.lt_of_gt k j)

  pub remove-IsOrdered :
      (m : LevelMap K V) (k : K) → IsOrdered cmp m → IsOrdered cmp (remove cmp k m)
  unfolding remove
  remove-IsOrdered [] k s = tt
  remove-IsOrdered ((j, w) ∷ m) k s =
      ground (arith, remove-IsOrdered m k s.1, All-remove cmp (λ e. cmp j e.0 ≡ lt) m k)
