-- ===== src/LevelMap/Cover.antt =====
-- A map whose keys all occur in another has no more entries than that one.
use cryptomeria.Common.{
  ◌≤◌, [], ◌∷◌, Bool, true, false, Ordering, lt, eq, gt, ◌≡◌, ◌≢◌, refl, arith, length, inl, inr,
  Ordering-cases,
}
use cryptomeria.Float.{IsPreorder, eq_right}
use cryptomeria.LevelMap.{LevelMap, contains_key, insert, remove}
use cryptomeria.LevelMap.Order.{Above, IsOrdered}
use cryptomeria.LevelMap.Lookup.{contains_key-get, get-insert, get-remove}

module _ {ℓ} {K : Type ℓ} (cmp : K → K → Ordering) where
  abbrev pub or_equal : K → K → Bool → Bool
  or_equal q k found = elim (cmp q k) [ eq ↦ true | _ ↦ found ]

  abbrev pub and_unequal : K → K → Bool → Bool
  and_unequal q k found = elim (cmp q k) [ eq ↦ false | _ ↦ found ]

module _ {ℓ κ} {K : Type ℓ} {V : Type κ} (cmp : K → K → Ordering) where
  -- Every key of `m` occurs in `u`.
  abbrev pub Covers : LevelMap K V → LevelMap K V → Type ℓ
  Covers u m = (q : K) → contains_key cmp q m ≡ true → contains_key cmp q u ≡ true

module _ {ℓ κ} {K : Type ℓ} {V : Type κ} {cmp : K → K → Ordering} (p : IsPreorder cmp) where
  pub contains_key-insert :
      (m : LevelMap K V) (k q : K) (v : V)
      → contains_key cmp q (insert cmp k v m) ≡ or_equal cmp q k (contains_key cmp q m)
  contains_key-insert m k q v = ground (
    arith,
    contains_key-get cmp (insert cmp k v m) q,
    contains_key-get cmp m q,
    get-insert p m k q v,
  )

  pub contains_key-remove :
      (m : LevelMap K V) (k q : K)
      → IsOrdered cmp m
      → contains_key cmp q (remove cmp k m) ≡ and_unequal cmp q k (contains_key cmp q m)
  contains_key-remove m k q o = ground (
    arith,
    contains_key-get cmp (remove cmp k m) q,
    contains_key-get cmp m q,
    get-remove p m k q o,
  )

  pub contains_key-eq :
      (m : LevelMap K V) (k q : K) → cmp q k ≡ eq → contains_key cmp q m ≡ contains_key cmp k m
  unfolding contains_key
  contains_key-eq [] k q h = refl
  contains_key-eq ((j, w) ∷ m) k q h = ground (arith, contains_key-eq m k q h, p.eq_left q k j h)

  gt_of_contains_key :
      (m : LevelMap K V) (k q : K) → Above cmp k m → contains_key cmp q m ≡ true → cmp q k ≡ gt
  unfolding contains_key
  gt_of_contains_key [] k q a h = cc
  gt_of_contains_key ((j, w) ∷ m) k q a h =
      ground (arith, eq_right p q j k, p.gt_of_lt k q, p.lt_of_gt q j, p.lt_trans k j q)

  Covers-tails :
      (u m : LevelMap K V) (j k : K) (w v : V)
      → cmp k j ≡ eq
      → Above cmp k m
      → Covers cmp ((j, w) ∷ u) ((k, v) ∷ m)
      → Covers cmp u m
  unfolding contains_key
  Covers-tails u m j k w v e a c q h =
      ground (arith, gt_of_contains_key m k q a h, eq_right p k j q e, c q)

  Covers-drop :
      (u m : LevelMap K V) (j k : K) (w v : V)
      → cmp k j ≡ gt
      → Above cmp k m
      → Covers cmp ((j, w) ∷ u) ((k, v) ∷ m)
      → Covers cmp u ((k, v) ∷ m)
  unfolding contains_key
  Covers-drop u m j k w v e a c q h = ground (
    arith,
    gt_of_contains_key m k q a,
    p.eq_left q k j,
    p.lt_of_gt q k,
    p.lt_of_gt k j e,
    p.lt_trans j k q,
    p.gt_of_lt j q,
    c q,
  )

  contains_key_head : (m : LevelMap K V) (k : K) (v : V) → contains_key cmp k ((k, v) ∷ m) ≡ true
  unfolding contains_key
  contains_key_head m k v = ground (arith, p.cmp_refl k)

  not_before :
      (u : LevelMap K V) (j k : K) (w : V) → contains_key cmp k ((j, w) ∷ u) ≡ true → cmp k j ≢ lt
  unfolding contains_key
  not_before u j k w h = ground arith

  not_contains_[] : (k : K) (v : V) → contains_key {V = V} cmp k [] ≢ true
  unfolding contains_key
  not_contains_[] k v h = cc

  pub length-Covers :
      (u m : LevelMap K V)
      → IsOrdered cmp u
      → IsOrdered cmp m
      → Covers cmp u m
      → length m ≤ length u
  length-Covers u [] ou om c = omega arith
  length-Covers [] ((k, v) ∷ m) ou om c =
      absurd (not_contains_[] k v (c k (contains_key_head m k v)))
  length-Covers ((j, w) ∷ u) ((k, v) ∷ m) ou om c = elim (Ordering-cases (cmp k j)) [
    | inl before ↦ absurd (not_before u j k w (c k (contains_key_head m k v)) before)
    | inr (inl same) ↦
        omega (arith, length-Covers u m ou.1 om.1 (Covers-tails u m j k w v same om.0 c))
    | inr (inr after) ↦
        omega (arith, length-Covers u ((k, v) ∷ m) ou.1 om (Covers-drop u m j k w v after om.0 c))
  ]
