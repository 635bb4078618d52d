-- ===== src/LevelMap/Lookup.antt =====
-- What `get` reads after `insert` and `remove`, and the first key as the least one.
use cryptomeria.Common.{
  [], ◌∷◌, Bool, true, false, Option, none, some, Ordering, lt, eq, ◌≡◌, refl, arith,
}
use cryptomeria.Float.{IsPreorder, eq_right}
use cryptomeria.LevelMap.{LevelMap, get, contains_key, insert, remove}
use cryptomeria.LevelMap.Order.{Above, IsOrdered}

-- A function on keys, changed at every key that compares equal to `k`.
abbrev pub update {ℓ κ} :
    {K : Type ℓ} {V : Type κ} → (K → K → Ordering) → K → Option V → (K → Option V) → K → Option V
update cmp k v f q = elim (cmp q k) [ eq ↦ v | _ ↦ f q ]

abbrev pub is_some {ℓ} : {A : Type ℓ} → Option A → Bool
is_some none = false
is_some (some a) = true

module _ {ℓ κ} {K : Type ℓ} {V : Type κ} (cmp : K → K → Ordering) where
  pub contains_key-get : (m : LevelMap K V) (k : K) → contains_key cmp k m ≡ is_some (get cmp k m)
  unfolding contains_key get
  contains_key-get [] k = refl
  contains_key-get ((j, w) ∷ m) k = ground (arith, contains_key-get m k)

module _ {ℓ κ} {K : Type ℓ} {V : Type κ} {cmp : K → K → Ordering} (p : IsPreorder cmp) where
  pub get-insert :
      (m : LevelMap K V) (k q : K) (v : V)
      → get cmp q (insert cmp k v m) ≡ update cmp k (some v) (λ x. get cmp x m) q
  unfolding get insert
  get-insert [] k q v = ground arith
  get-insert ((j, w) ∷ m) k q v = ground (
    arith,
    get-insert m k q v,
    p.lt_trans q k j,
    p.lt_trans q j k,
    eq_right p k j q,
    p.eq_left q k j,
    p.eq_left q j k,
    p.lt_of_gt k j,
    p.gt_of_lt k j,
  )

  pub get-Above : (m : LevelMap K V) (k q : K) → Above cmp k m → cmp q k ≡ eq → get cmp q m ≡ none
  unfolding get
  get-Above [] k q a h = refl
  get-Above ((j, w) ∷ m) k q a h = ground (arith, p.eq_left q k j h)

  pub get_before : (m : LevelMap K V) (k q : K) → Above cmp k m → cmp q k ≡ lt → get cmp q m ≡ none
  unfolding get
  get_before [] k q a h = refl
  get_before ((j, w) ∷ m) k q a h = ground (arith, p.lt_trans q k j h)

  pub get-remove :
      (m : LevelMap K V) (k q : K)
      → IsOrdered cmp m
      → get cmp q (remove cmp k m) ≡ update cmp k none (λ x. get cmp x m) q
  unfolding get remove
  get-remove [] k q s = ground arith
  get-remove ((j, w) ∷ m) k q s = ground (
    arith,
    get-remove m k q s.1,
    eq_right p k j q,
    p.eq_left q k j,
    p.lt_trans q k j,
    get-Above m j q s.0,
    get_before m j q s.0,
    p.lt_of_gt k j,
    p.gt_of_lt k j,
  )
