-- ===== src/Float.antt =====
-- The `f64` of the program and the `OrderedFloat` wrapper of the `ordered_float` crate: an
-- interface, since the checker has no floating point. `Float` holds what the code calls,
-- `IsLawful` what it relies on, and `Fixed` is a value of both.
pub mod Fixed
use cryptomeria.Common.{
  ◌≡◌, Bool, true, false, List, [], ◌∷◌, Option, none, some, Ordering, lt, eq, gt, String, arith,
}

pub record Float {ℓ} (F : Type ℓ) : Type ℓ where
  -- `f64::partial_cmp`: `none` where an operand is NaN
  pub partial_cmp : F → F → Option Ordering
  -- `OrderedFloat::cmp`: total, also on NaN
  pub cmp : F → F → Ordering
  pub is_nan : F → Bool
  pub add : F → F → F
  pub sub : F → F → F
  pub mul : F → F → F
  pub div : F → F → F
  pub nought : F  -- 0.0
  pub one : F  -- 1.0
  pub hundred : F  -- 100.0
  -- `str::parse::<f64>().ok()`
  pub parse : String → Option F

module _ {ℓ} {F : Type ℓ} ⦃f : Float F⦄ where
  -- The operators `<`, `>`, `<=`, `>=` and `==` of `f64` are read off `partial_cmp`.
  abbrev pub flt : F → F → Bool
  flt a b = elim (f.partial_cmp a b) [ some lt ↦ true | _ ↦ false ]

  abbrev pub fgt : F → F → Bool
  fgt a b = elim (f.partial_cmp a b) [ some gt ↦ true | _ ↦ false ]

  abbrev pub fle : F → F → Bool
  fle a b = elim (f.partial_cmp a b) [ some lt ↦ true | some eq ↦ true | _ ↦ false ]

  abbrev pub fge : F → F → Bool
  fge a b = elim (f.partial_cmp a b) [ some gt ↦ true | some eq ↦ true | _ ↦ false ]

  abbrev pub feq : F → F → Bool
  feq a b = elim (f.partial_cmp a b) [ some eq ↦ true | _ ↦ false ]

  -- `Iterator::sum` of `f64`: from the left
  unfoldable pub sum_from : F → List F → F
  sum_from acc [] = acc
  sum_from acc (x ∷ xs) = sum_from (f.add acc x) xs

  abbrev pub sum : List F → F
  sum = sum_from f.nought

-- A total preorder: `cmp a b ≡ eq` does not make `a` and `b` equal (0.0 and -0.0).
pub record IsPreorder {ℓ} {K : Type ℓ} (cmp : K → K → Ordering) : Type ℓ where
  pub cmp_refl : (a : K) → cmp a a ≡ eq
  pub gt_of_lt : (a b : K) → cmp a b ≡ lt → cmp b a ≡ gt
  pub lt_of_gt : (a b : K) → cmp a b ≡ gt → cmp b a ≡ lt
  pub eq_symm : (a b : K) → cmp a b ≡ eq → cmp b a ≡ eq
  pub lt_trans : (a b c : K) → cmp a b ≡ lt → cmp b c ≡ lt → cmp a c ≡ lt
  pub eq_left : (a b c : K) → cmp a b ≡ eq → cmp a c ≡ cmp b c

-- What `ordered_float` documents: a total order that agrees with `partial_cmp` away from NaN, where
-- `partial_cmp` is defined.
pub record IsLawful {ℓ} (F : Type ℓ) ⦃f : Float F⦄ : Type ℓ where
  pub preorder : IsPreorder f.cmp
  pub open preorder use *
  pub partial_nan : (a b : F) → f.is_nan a ≡ true → f.partial_cmp a b ≡ none
  pub nan_partial : (a b : F) → f.is_nan b ≡ true → f.partial_cmp a b ≡ none
  pub partial_num :
      (a b : F) → f.is_nan a ≡ false → f.is_nan b ≡ false → f.partial_cmp a b ≡ some (f.cmp a b)

module _ {ℓ} {K : Type ℓ} {cmp : K → K → Ordering} (p : IsPreorder cmp) where
  pub eq_right : (a b c : K) → cmp a b ≡ eq → cmp c a ≡ cmp c b
  eq_right a b c h = ground (
    arith,
    p.eq_left a b c h,
    p.lt_of_gt a c,
    p.gt_of_lt a c,
    p.eq_symm a c,
    p.lt_of_gt c a,
    p.gt_of_lt c a,
    p.eq_symm c a,
    p.lt_of_gt b c,
    p.gt_of_lt b c,
    p.eq_symm b c,
    p.lt_of_gt c b,
    p.gt_of_lt c b,
    p.eq_symm c b,
  )

  pub gt_trans : (a b c : K) → cmp a b ≡ gt → cmp b c ≡ gt → cmp a c ≡ gt
  gt_trans a b c h k = p.gt_of_lt c a (p.lt_trans c b a (p.lt_of_gt b c k) (p.lt_of_gt a b h))
