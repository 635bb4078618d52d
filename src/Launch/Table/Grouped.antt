-- ===== src/Launch/Table/Grouped.antt =====
-- What the map of the table holds under a pair: aliases of that pair.
use text.Mathlib.TextEquality.{path_by_compare}
use Prim.Native.String.{compare}
use cryptomeria.Common.{
  List, [], ◌∷◌, ◌++◌, ◌≡◌, ◌⊎◌, inl, inr, refl, sym, subst, All, All-imp, All-append, lt, eq, gt,
  Ordering,
}
use cryptomeria.Instruments.Aliases.{Alias}
use cryptomeria.Launch.Table.{Pair, Pairs, pair_of, compare_pairs, push_entry, group}

-- `a` is one of the aliases.
abbrev pub Listed : Alias → List Alias → Type 0
Listed a [] = ⊥
Listed a (b ∷ rest) = (a ≡ b) ⊎ Listed a rest

abbrev pub IsEntry : List Alias → Pair → Alias → Type 0
IsEntry aliases pair a = (pair_of a ≡ pair) × Listed a aliases

-- The map holds a pair with its entries.
abbrev pub Holds : Pair × List Alias → Pairs → Type 0
Holds p [] = ⊥
Holds p (q ∷ rest) = (p ≡ q) ⊎ Holds p rest

abbrev IsGrouped : List Alias → Pairs → Type 0
IsGrouped aliases pairs = All (λ p. All (IsEntry aliases p.0) p.1) pairs

compare_pairs-eq : (p q : Pair) → compare_pairs p q ≡ eq → p ≡ q
compare_pairs-eq (a, b) (c, d) h = go (compare a c) refl h
  where
    go :
        (o : Ordering)
        → compare a c ≡ o
        → elim o [ lt ↦ lt | gt ↦ gt | eq ↦ compare b d ] ≡ eq
        → ◌≡◌ {A = Pair} (a, b) (c, d)
    go lt e h = cc
    go gt e h = cc
    go eq e h = λ i. (path_by_compare a c e i, path_by_compare b d h i)

push_entry-IsGrouped :
    (aliases : List Alias) (key : Pair) (a : Alias) (pairs : Pairs)
    → IsEntry aliases key a
    → IsGrouped aliases pairs
    → IsGrouped aliases (push_entry key a pairs)
unfolding push_entry
push_entry-IsGrouped aliases key a [] h all = ((h, tt), tt)
push_entry-IsGrouped aliases key a ((k, entries) ∷ rest) h (all, alls) =
    go (compare_pairs key k) refl (push_entry-IsGrouped aliases key a rest h alls)
  where
    go :
        (o : Ordering)
        → compare_pairs key k ≡ o
        → IsGrouped aliases (push_entry key a rest)
        → IsGrouped aliases (elim o [
          | lt ↦ (key, a ∷ []) ∷ (k, entries) ∷ rest
          | eq ↦ (k, entries ++ (a ∷ [])) ∷ rest
          | gt ↦ (k, entries) ∷ push_entry key a rest
        ])
    go lt e later = ((h, tt), (all, alls))
    go gt e later = (all, later)
    go eq e later = (
      All-append (IsEntry aliases k) entries (a ∷ []) all
          (subst (λ p. IsEntry aliases p a) (compare_pairs-eq key k e) h, tt),
      alls,
    )

group-IsGrouped :
    (aliases l : List Alias) (pairs : Pairs)
    → All (λ a. Listed a aliases) l
    → IsGrouped aliases pairs
    → IsGrouped aliases (group l pairs)
unfolding group
group-IsGrouped aliases [] pairs h all = all
group-IsGrouped aliases (a ∷ rest) pairs (listed_a, h) all =
    group-IsGrouped aliases rest (push_entry (pair_of a) a pairs) h
      (push_entry-IsGrouped aliases (pair_of a) a pairs (refl, listed_a) all)

All-Listed : (aliases : List Alias) → All (λ a. Listed a aliases) aliases
All-Listed [] = tt
All-Listed (a ∷ rest) = (inl refl, All-imp (λ b there. inr there) rest (All-Listed rest))

Holds-All :
    (P : Pair × List Alias → Type 0) (p : Pair × List Alias) (pairs : Pairs)
    → Holds p pairs
    → All P pairs
    → P p
Holds-All P p [] h all = elim h [ ]
Holds-All P p (q ∷ rest) (inl same) (first, all) = subst P (sym same) first
Holds-All P p (q ∷ rest) (inr there) (first, all) = Holds-All P p rest there all

pub group-IsEntry :
    (aliases : List Alias) (pair : Pair) (entries : List Alias)
    → Holds (pair, entries) (group aliases [])
    → All (IsEntry aliases pair) entries
group-IsEntry aliases pair entries h =
    Holds-All (λ p. All (IsEntry aliases p.0) p.1) (pair, entries) (group aliases []) h
      (group-IsGrouped aliases aliases [] (All-Listed aliases) tt)
