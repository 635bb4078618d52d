-- ===== src/Book/Sorting.antt =====
-- The stable sort of the filters: its result is a rearrangement, in order.
use mathlib.Core.List.Perm
use mathlib.Core.List.{Perm}
use cryptomeria.Common.{
  ℕ, zero, suc, min, List, [], ◌∷◌, ◌++◌, Ordering, lt, eq, gt, ◌≡◌, ◌≢◌, ◌⊎◌, refl, arith, inl,
  inr, All, All-imp, length, take, ap, sym, ◌∙◌,
}
use cryptomeria.Float.{IsPreorder}
use cryptomeria.Book.Filters.{place, sort_by}

pub gt-cases : (o : Ordering) → (o ≡ gt) ⊎ (o ≢ gt)
gt-cases lt = inr (λ e. cc e)
gt-cases eq = inr (λ e. cc e)
gt-cases gt = inl refl

module _ {ℓ} {A : Type ℓ} where
  abbrev pub drop : ℕ → List A → List A
  drop zero xs = xs
  drop (suc n) [] = []
  drop (suc n) (x ∷ xs) = drop n xs

  pub take-append-drop : (n : ℕ) (xs : List A) → take n xs ++ drop n xs ≡ xs
  take-append-drop zero xs = refl
  take-append-drop (suc n) [] = refl
  take-append-drop (suc n) (x ∷ xs) = ap (◌∷◌ x) (take-append-drop n xs)

  pub length-take-min : (n : ℕ) (xs : List A) → length (take n xs) ≡ min n (length xs)
  length-take-min zero xs = omega arith
  length-take-min (suc n) [] = omega arith
  length-take-min (suc n) (x ∷ xs) = omega (arith, length-take-min n xs)

  All-drop : (P : A → Type 0) (n : ℕ) (xs : List A) → All P xs → All P (drop n xs)
  All-drop P zero xs h = h
  All-drop P (suc n) [] h = tt
  All-drop P (suc n) (x ∷ xs) (p, ps) = All-drop P n xs ps

module _ {ℓ} {A : Type ℓ} (cmp : A → A → Ordering) where
  -- Each element is no greater than any later one.
  abbrev pub Rises : List A → Type 0
  Rises [] = Unit
  Rises (x ∷ xs) = All (λ y. cmp x y ≢ gt) xs × Rises xs

  place-later : (x y : A) (ys : List A) → cmp x y ≡ gt → place cmp x (y ∷ ys) ≡ y ∷ place cmp x ys
  unfolding place
  place-later x y ys e = ground arith

  place-first : (x y : A) (ys : List A) → cmp x y ≢ gt → place cmp x (y ∷ ys) ≡ x ∷ y ∷ ys
  unfolding place
  place-first x y ys e = ground arith

  pub place-perm : (x : A) (ys : List A) → Perm (place cmp x ys) (x ∷ ys)
  unfolding place
  place-perm x [] = Perm.rfl
  place-perm x (y ∷ ys) = elim (gt-cases (cmp x y)) [
    | inr e ↦ rw (place-first x y ys e) Perm.rfl
    | inl e ↦
        rw (place-later x y ys e) (Perm.trans (Perm.cons y (place-perm x ys)) (Perm.swap x y ys))
  ]

  pub sort_by-perm : (xs : List A) → Perm (sort_by cmp xs) xs
  unfolding sort_by
  sort_by-perm [] = Perm.rfl
  sort_by-perm (x ∷ xs) = Perm.trans (place-perm x (sort_by cmp xs)) (Perm.cons x (sort_by-perm xs))

  All-place : (P : A → Type 0) (x : A) (ys : List A) → P x → All P ys → All P (place cmp x ys)
  unfolding place
  All-place P x [] p h = (p, tt)
  All-place P x (y ∷ ys) p (q, h) = elim (gt-cases (cmp x y)) [
    | inr e ↦ rw (place-first x y ys e) (p, (q, h))
    | inl e ↦ rw (place-later x y ys e) (q, All-place P x ys p h)
  ]

  pub All-sort_by : (P : A → Type 0) (xs : List A) → All P xs → All P (sort_by cmp xs)
  unfolding sort_by
  All-sort_by P [] h = tt
  All-sort_by P (x ∷ xs) (p, h) = All-place P x (sort_by cmp xs) p (All-sort_by P xs h)

  -- In a list in order, what `take` leaves is no greater than what `drop` leaves.
  pub Rises-split :
      (n : ℕ) (xs : List A) → Rises xs → All (λ a. All (λ b. cmp a b ≢ gt) (drop n xs)) (take n xs)
  Rises-split zero xs h = tt
  Rises-split (suc n) [] h = tt
  Rises-split (suc n) (x ∷ xs) (h, hs) = (All-drop _ n xs h, Rises-split n xs hs)

module _ {ℓ} {A : Type ℓ} (cmp : A → A → Ordering) (p : IsPreorder cmp) where
  pub le_trans : (a b c : A) → cmp a b ≢ gt → cmp b c ≢ gt → cmp a c ≢ gt
  le_trans a b c h k =
      ground (arith, p.lt_of_gt a c, p.lt_trans c a b, p.gt_of_lt c b, p.eq_left a b c)

  place-Rises : (x : A) (ys : List A) → Rises cmp ys → Rises cmp (place cmp x ys)
  unfolding place
  place-Rises x [] h = (tt, tt)
  place-Rises x (y ∷ ys) (h, hs) = elim (gt-cases (cmp x y)) [
    | inr e ↦ rw (place-first cmp x y ys e) ((e, All-imp (λ z. le_trans x y z e) ys h), (h, hs))
    | inl e ↦
        rw (place-later cmp x y ys e)
          (All-place cmp _ x ys (ground (arith, p.lt_of_gt x y)) h, place-Rises x ys hs)
  ]

  pub sort_by-Rises : (xs : List A) → Rises cmp (sort_by cmp xs)
  unfolding sort_by
  sort_by-Rises [] = tt
  sort_by-Rises (x ∷ xs) = place-Rises x (sort_by cmp xs) (sort_by-Rises xs)

module _ {ℓ} {A : Type ℓ} (c d : A → A → Ordering) where
  place-agree : (x : A) (ys : List A) → All (λ y. c x y ≡ d x y) ys → place c x ys ≡ place d x ys
  unfolding place
  place-agree x [] h = refl
  place-agree x (y ∷ ys) (e, h) = elim (gt-cases (d x y)) [
    | inr n ↦ place-first c x y ys (λ k. n (sym e ∙ k)) ∙ sym (place-first d x y ys n)
    | inl k ↦
        place-later c x y ys (e ∙ k)
        ∙ (ap (◌∷◌ y) (place-agree x ys h) ∙ sym (place-later d x y ys k))
  ]

  -- Two comparisons that agree on the elements of a list sort it alike.
  pub sort_by-agree :
      (P : A → Type 0)
      → ((x y : A) → P x → P y → c x y ≡ d x y)
      → (xs : List A) → All P xs
      → sort_by c xs ≡ sort_by d xs
  unfolding sort_by
  sort_by-agree P same [] h = refl
  sort_by-agree P same (x ∷ xs) (p, h) =
      place-agree x (sort_by c xs) (All-imp (λ y. same x y p) (sort_by c xs) (All-sort_by c P xs h))
      ∙ ap (place d x) (sort_by-agree P same xs h)
