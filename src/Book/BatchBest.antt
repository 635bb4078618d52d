-- ===== src/Book/BatchBest.antt =====
-- The best price of a batch, from which the filter of a snapshot measures its percentage.
use cryptomeria.Common.{
  List, [], ◌∷◌, false, Option, none, some, gt, ◌≡◌, ◌≢◌, ◌⊎◌, refl, arith, All, inl, inr, ap, ◌∙◌,
  sym, subst, Bool-cases, Option-cases,
}
use cryptomeria.Float.{Float, IsLawful, fgt, flt}
use cryptomeria.Book.{Side, bid, ask, LevelFormat, side_cmp}
use cryptomeria.Book.Filters.{better, next_best, find_best, find_best_price}
use cryptomeria.Book.Invariant.{side_cmp-IsPreorder}
use cryptomeria.Book.Sorting.{gt-cases, le_trans}

module _ {ℓ} {F : Type ℓ} ⦃f : Float F⦄ where
  -- The price, if there is one, is a number.
  abbrev pub IsNumber : Option F → Type 0
  IsNumber none = Unit
  IsNumber (some p) = f.is_nan p ≡ false

  abbrev pub price_of : Option (F × F) → Option F
  price_of none = none
  price_of (some e) = some e.0

  -- The price, if there is one, is no better than `best`.
  abbrev pub NoBetter : Side → F → Option F → Type 0
  NoBetter side best none = Unit
  NoBetter side best (some p) = side_cmp side best p ≢ gt

module _ {ℓ} {F : Type ℓ} ⦃f : Float F⦄ (laws : IsLawful F) where
  NoBetter-self : (side : Side) (p : F) → NoBetter side p (some p)
  NoBetter-self side p = ground (arith, (side_cmp-IsPreorder laws.preorder side).cmp_refl p)

  NoBetter-trans :
      (side : Side) (a b : F) (o : Option F)
      → NoBetter side a (some b)
      → NoBetter side b o
      → NoBetter side a o
  NoBetter-trans side a b none h k = tt
  NoBetter-trans side a b (some p) h k =
      le_trans (side_cmp side) (side_cmp-IsPreorder laws.preorder side) a b p h k

  -- `better` gives a price no worse than both.
  better-NoBetter :
      (side : Side) (acc : Option F) (p : F)
      → IsNumber acc
      → f.is_nan p ≡ false
      → (n : F) × ((better side acc p ≡ some n)
          × ((f.is_nan n ≡ false) × (NoBetter side n acc × NoBetter side n (some p))))
  better-NoBetter side none p na np = (p, (refl, (np, (tt, NoBetter-self side p))))
  better-NoBetter bid (some a) p na np =
      let read = laws.partial_num p a np na in
      elim (gt-cases (f.cmp p a)) [
        | inl above ↦ (
          p,
          (ground (arith, read), (np, (ground (arith, laws.lt_of_gt p a), NoBetter-self bid p))),
        )
        | inr below ↦ (a, (ground (arith, read), (na, (NoBetter-self bid a, below))))
      ]
  better-NoBetter ask (some a) p na np =
      let read = laws.partial_num p a np na in
      elim (gt-cases (f.cmp a p)) [
        | inl above ↦ (
          p,
          (
            ground (arith, read, laws.lt_of_gt a p),
            (np, (ground (arith, laws.lt_of_gt a p), NoBetter-self ask p)),
          ),
        )
        | inr below ↦
            (a, (ground (arith, read, laws.gt_of_lt p a), (na, (NoBetter-self ask a, below))))
      ]

module _ {ℓ} {F : Type ℓ} ⦃f : Float F⦄ where
  better-choice :
      (side : Side) (acc : Option F) (p n : F)
      → better side acc p ≡ some n
      → (acc ≡ some n) ⊎ (some p ≡ some n)
  better-choice side none p n h = inr h
  better-choice bid (some a) p n h = elim (Bool-cases (fgt p a)) [
    | inl e ↦ inr (rw e at h)
    | inr e ↦ inl (rw e at h)
  ]
  better-choice ask (some a) p n h = elim (Bool-cases (flt p a)) [
    | inl e ↦ inr (rw e at h)
    | inr e ↦ inl (rw e at h)
  ]

module _ {ℓ κ} {F : Type ℓ} {L : Type κ} ⦃f : Float F⦄ (format : LevelFormat F L) where
  -- the price that the filters read off a level
  abbrev pub price : L → Option F
  price level = price_of (format.view_level level)

  -- Some level has the price.
  pub data HasPrice (b : F) : List L → Type (ℓ ⊔ κ) where
    here : {l : L} {ls : List L} → price l ≡ some b → HasPrice b (l ∷ ls)
    later : {l : L} {ls : List L} → HasPrice b ls → HasPrice b (l ∷ ls)

  next_best-none :
      (side : Side) (acc : Option F) (l : L)
      → format.view_level l ≡ none
      → next_best format side acc l ≡ acc
  next_best-none side acc l e = ground (arith, e)

  next_best-some :
      (side : Side) (acc : Option F) (l : L) (p a : F)
      → format.view_level l ≡ some (p, a)
      → next_best format side acc l ≡ better side acc p
  next_best-some side acc l p a e = ground (arith, e)

  find_best-HasPrice :
      (side : Side) (acc : Option F) (levels : List L) (b : F)
      → find_best format side acc levels ≡ some b
      → (acc ≡ some b) ⊎ HasPrice b levels
  unfolding find_best
  find_best-HasPrice side acc [] b h = inl h
  find_best-HasPrice side acc (l ∷ ls) b h =
      elim (find_best-HasPrice side (next_best format side acc l) ls b h) [
        | inr rest ↦ inr (later rest)
        | inl first ↦ elim (Option-cases (format.view_level l)) [
          | inl e ↦ inl (sym (next_best-none side acc l e) ∙ first)
          | inr ((p, a), e) ↦
              elim (better-choice side acc p b (sym (next_best-some side acc l p a e) ∙ first)) [
                | inl old ↦ inl old
                | inr new ↦ inr (here (ap price_of e ∙ new))
              ]
        ]
      ]

  find_best-NoBetter :
      IsLawful F
      → (side : Side) (acc : Option F) (levels : List L) (b : F) → IsNumber acc
      → All (λ l. IsNumber (price l)) levels
      → find_best format side acc levels ≡ some b
      → NoBetter side b acc × All (λ l. NoBetter side b (price l)) levels
  unfolding find_best
  find_best-NoBetter laws side acc [] b na h e =
      (subst (NoBetter side b) (sym e) (NoBetter-self laws side b), tt)
  find_best-NoBetter laws side acc (l ∷ ls) b na (nl, h) e =
      elim (Option-cases (format.view_level l)) [
        | inl v ↦
            let (x, xs) =
              find_best-NoBetter laws side acc ls b na h (rw (next_best-none side acc l v) at e) in
            (x, (rw v tt, xs))
        | inr ((p, a), v) ↦
            let (n, (is_n, (nn, (n_acc, n_p)))) = better-NoBetter laws side acc p na (rw v at nl) in
            let (x, xs) =
              find_best-NoBetter laws side (some n) ls b nn h
                (rw (next_best-some side acc l p a v ∙ is_n) at e) in
            (
              NoBetter-trans laws side b n acc x n_acc,
              (rw v (NoBetter-trans laws side b n (some p) x n_p), xs),
            )
      ]

  better-found : (side : Side) (acc : Option F) (p : F) → better side acc p ≢ none
  better-found side none p h = ground (arith, h)
  better-found bid (some a) p h = elim (Bool-cases (fgt p a)) [
    | inl e ↦ ground (arith, (rw e at h))
    | inr e ↦ ground (arith, (rw e at h))
  ]
  better-found ask (some a) p h = elim (Bool-cases (flt p a)) [
    | inl e ↦ ground (arith, (rw e at h))
    | inr e ↦ ground (arith, (rw e at h))
  ]

  find_best-none :
      (side : Side) (acc : Option F) (levels : List L)
      → find_best format side acc levels ≡ none
      → (acc ≡ none) × All (λ l. price l ≡ none) levels
  unfolding find_best
  find_best-none side acc [] h = (h, tt)
  find_best-none side acc (l ∷ ls) h =
      let (none_yet, rest) = find_best-none side (next_best format side acc l) ls h in
      elim (Option-cases (format.view_level l)) [
        | inl e ↦ (sym (next_best-none side acc l e) ∙ none_yet, (ap price_of e, rest))
        | inr ((p, a), e) ↦
            absurd (better-found side acc p (sym (next_best-some side acc l p a e) ∙ none_yet))
      ]

  -- What a batch has to show for an answer: no price for none, and for a price a level that has it
  -- and none with a better one.
  pub data IsBest (side : Side) (levels : List L) : Option F → Type (ℓ ⊔ κ) where
    no_price : All (λ l. price l ≡ none) levels → IsBest side levels none
    best_price :
        {b : F}
        → HasPrice b levels
        → All (λ l. NoBetter side b (price l)) levels
        → IsBest side levels (some b)

  -- If no price of a batch is NaN, `find_best_price` returns the price of one of its levels, than
  -- which no level has a better one; it returns none only if no level of the batch parses.
  pub find_best_price-IsBest :
      IsLawful F
      → (side : Side) (levels : List L) → All (λ l. IsNumber (price l)) levels
      → IsBest side levels (find_best_price format levels side)
  unfolding find_best_price
  find_best_price-IsBest laws side levels h =
      elim (Option-cases (find_best format side none levels)) [
        | inl e ↦
            subst (IsBest side levels) (sym e) (no_price (find_best-none side none levels e).1)
        | inr (b, e) ↦ subst (IsBest side levels) (sym e) (
            best_price
              (elim (find_best-HasPrice side none levels b e) [ inl n ↦ cc n | inr has ↦ has ])
              (find_best-NoBetter laws side none levels b tt h e).1)
      ]
