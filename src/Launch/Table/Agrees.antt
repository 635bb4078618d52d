-- ===== src/Launch/Table/Agrees.antt =====
-- What the table shows for a pair is what a client is started with, where an exchange names the base
-- as the table does.
use Prim.Native.String.{◌++◌ as ◌⊕◌}
use text.Mathlib.Text.{◌==◌ as str_eq}
use text.Mathlib.TextEquality.{eq_iff}
use cryptomeria.Common.{
  List, [], ◌∷◌, Bool, true, false, ◌&&◌, ◌||◌, not, Option, none, some, String, ◌≡◌, ◌⊎◌, inl, inr,
  refl, sym, subst, ap, arith, map, keep, Bool-cases, All,
}
use cryptomeria.Migrate.{unwrap_or}
use cryptomeria.Instruments.{eq_ignore_ascii_case, find_fallback_target}
use cryptomeria.Instruments.Aliases.{Alias}
use cryptomeria.Instruments.Names.{Casing}
use cryptomeria.Instruments.Resolve.{listed, find_target, resolve_pair, fall_back}
use cryptomeria.Instruments.Resolve.Sound.{eq_ignore_ascii_case_refl}
use cryptomeria.Launch.Table.Grouped.{Listed, IsEntry, Holds, group-IsEntry}
use cryptomeria.Launch.Table.{
  group, normalize_base, pair_of, not_supported, written, entered, is_of, targets_of, exact,
  check_fallback, column_of, without_match,
}

last_wins :
    (w' w : String) (later : Option String)
    → w' ≡ w
    → (later ≡ none) ⊎ (later ≡ some w)
    → some (unwrap_or w' later) ≡ some w
last_wins w' w none same h = ap some same
last_wins w' w (some v) same h = ground (arith, h)

module _ (casing : Casing) (exchange base target : String) where
  -- An alias of the exchange is plain if its base and target are in capitals, its base is not renamed,
  -- and its target is not the wanted one in other letters.
  abbrev pub is_plain : Alias → Bool
  is_plain a =
      not (str_eq a.exchange exchange)
      || (str_eq (normalize_base a.base) a.base
          && (str_eq (casing.to_uppercase a.base) a.base
              && (str_eq (casing.to_uppercase a.target) a.target
                  && (not (eq_ignore_ascii_case a.target target) || str_eq a.target target))))

  abbrev pub all_plain : List Alias → Bool
  all_plain [] = true
  all_plain (a ∷ rest) = is_plain a && all_plain rest

  plain_listed :
      (aliases : List Alias) (a : Alias)
      → is_plain a ≡ true
      → listed casing aliases exchange base a ≡ is_of casing aliases exchange base a
  plain_listed aliases a h = ground (
    arith,
    eq_iff (normalize_base a.base) a.base,
    eq_iff (casing.to_uppercase a.base) a.base,
    eq_iff a.base base,
  )

  abbrev found_in : List Alias → List Alias → Option String
  found_in aliases l =
      find_target casing aliases target
        (map (λ a. a.target) (keep (listed casing aliases exchange base) l))

  plain_match :
      (aliases : List Alias) (a : Alias)
      → is_plain a ≡ true
      → is_of casing aliases exchange base a ≡ true
      → eq_ignore_ascii_case a.target target ≡ true
      → (a.base ≡ base) × (a.target ≡ target) × (casing.to_uppercase a.target ≡ target)
  plain_match aliases a h e k = ground (
    arith,
    eq_iff a.exchange exchange,
    eq_iff (normalize_base a.base) a.base,
    eq_iff (normalize_base a.base) base,
    eq_iff (casing.to_uppercase a.target) a.target,
    eq_iff a.target target,
  )

  plain_miss :
      (aliases : List Alias) (a : Alias)
      → is_plain a ≡ true
      → is_of casing aliases exchange base a ≡ true
      → eq_ignore_ascii_case a.target target ≡ false
      → str_eq (casing.to_uppercase a.target) target ≡ false
  plain_miss aliases a h e k = ground (
    arith,
    eq_iff (casing.to_uppercase a.target) a.target,
    eq_iff (casing.to_uppercase a.target) target,
    eq_ignore_ascii_case_refl a.target,
  )

  all_plain_parts :
      (a : Alias) (rest : List Alias)
      → all_plain (a ∷ rest) ≡ true
      → (is_plain a ≡ true) × (all_plain rest ≡ true)
  all_plain_parts a rest h = ground (arith, h)

  -- Over plain aliases, the table and the resolution find the wanted target alike.
  exact-find_target :
      (aliases l : List Alias)
      → all_plain l ≡ true
      → ((exact casing aliases exchange base target l ≡ none) × (found_in aliases l ≡ none))
        ⊎ ((exact casing aliases exchange base target l
              ≡ some (written casing aliases exchange base target))
            × (found_in aliases l ≡ some target))
  unfolding exact find_target
  exact-find_target aliases [] h = inl (refl, refl)
  exact-find_target aliases (a ∷ rest) h =
      let (plain, plains) = all_plain_parts a rest h in
      let same = plain_listed aliases a plain in
      let later = exact-find_target aliases rest plains in
      elim (Bool-cases (is_of casing aliases exchange base a)) [
        | inr e ↦ rw same (rw e later)
        | inl e ↦ elim (Bool-cases (eq_ignore_ascii_case a.target target)) [
          | inr k ↦ rw same (rw e (rw k (rw (plain_miss aliases a plain e k) later)))
          | inl k ↦
              let (base_same, target_same, upper_same) = plain_match aliases a plain e k in
              let alike : written casing aliases exchange a.base a.target
                  ≡ written casing aliases exchange base target =
                rw (base_same, target_same) refl in
              inr (
                rw e (
                    rw k (
                      last_wins _ _ (exact casing aliases exchange base target rest) alike
                        (elim later [
                          | inl (none_later, _) ↦ inl none_later
                          | inr (one, _) ↦ inr one
                        ]))),
                rw same (
                    rw e (
                      rw ((eq_iff (casing.to_uppercase a.target) target).1 upper_same)
                        (ap some target_same))),
              )
        ]
      ]

  targets-available :
      (aliases l : List Alias)
      → all_plain l ≡ true
      → keep (listed casing aliases exchange base) l ≡ keep (is_of casing aliases exchange base) l
  targets-available aliases [] h = refl
  targets-available aliases (a ∷ rest) h =
      let (plain, plains) = all_plain_parts a rest h in
      rw (plain_listed aliases a plain, targets-available aliases rest plains) refl

  abbrev is_match : List Alias → Alias → Bool
  is_match aliases a = is_of casing aliases exchange base a && eq_ignore_ascii_case a.target target

  exact_parts :
      (aliases : List Alias) (b : Alias) (rest : List Alias)
      → exact casing aliases exchange base target (b ∷ rest) ≡ none
      → (is_match aliases b ≡ false) × (exact casing aliases exchange base target rest ≡ none)
  unfolding exact
  exact_parts aliases b rest h = ground (arith, h)

  -- An entry of the pair at the exchange is a match.
  exact-Listed :
      (aliases l : List Alias) (a : Alias)
      → exact casing aliases exchange base target l ≡ none
      → Listed a l
      → pair_of a ≡ (base, target)
      → str_eq a.exchange exchange ≡ false
  unfolding exact
  exact-Listed aliases [] a h listed_a pair = elim listed_a [ ]
  exact-Listed aliases (b ∷ rest) a h (inl same) pair =
      let (missed, _) = exact_parts aliases b rest h in
      let base_same : normalize_base a.base ≡ base = ap (λ p. p.0) pair in
      let target_same : a.target ≡ target = ap (λ p. p.1) pair in
      let missed_a = subst (λ c. is_match aliases c ≡ false) (sym same) missed in
      ground (
        arith,
        missed_a,
        eq_iff (normalize_base a.base) base,
        eq_ignore_ascii_case_refl a.target,
        base_same,
        target_same,
      )
  exact-Listed aliases (b ∷ rest) a h (inr there) pair =
      exact-Listed aliases rest a (exact_parts aliases b rest h).1 there pair

  entered-not_supported :
      (aliases : List Alias) (entries : List Alias)
      → exact casing aliases exchange base target aliases ≡ none
      → All (IsEntry aliases (base, target)) entries
      → entered casing aliases exchange base entries not_supported ≡ not_supported
  unfolding entered
  entered-not_supported aliases [] h all = refl
  entered-not_supported aliases (a ∷ rest) h ((pair, listed_a), all) =
      rw (exact-Listed aliases aliases a h listed_a pair) (entered-not_supported aliases rest h all)

  without_match-fall_back :
      (aliases : List Alias) (found : Option String)
      → (without_match casing aliases exchange base target found not_supported).val
        ≡ fall_back casing aliases (base ⊕ "-" ⊕ target) exchange base found
  without_match-fall_back aliases none = refl
  without_match-fall_back aliases (some fallback) = refl

  -- The column of a pair at an exchange with plain aliases shows what the pair is resolved to.
  pub column_of-resolve_pair :
      (aliases entries : List Alias)
      → all_plain aliases ≡ true
      → All (IsEntry aliases (base, target)) entries
      → (column_of casing aliases exchange (base, target) entries).val
        ≡ resolve_pair casing aliases (base ⊕ "-" ⊕ target) exchange base target
  unfolding column_of check_fallback
  column_of-resolve_pair aliases entries plain all =
      elim (exact-find_target aliases aliases plain) [
        | inr (shown, found) ↦ rw shown (rw found refl)
        | inl (none_shown, none_found) ↦ rw (entered-not_supported aliases entries none_shown all) (
            rw none_shown (
              rw none_found (
                rw (targets-available aliases aliases plain) (
                  without_match-fall_back aliases (
                    find_fallback_target casing.to_uppercase target
                      (targets_of casing aliases exchange base))))))
      ]

-- For a pair of the table and an exchange whose aliases are in capitals and name their bases as the
-- table does, the table shows the instrument to which the pair is resolved.
pub print_instrument_table-resolve_pair :
    (casing : Casing) (aliases : List Alias) (exchange base target : String) (entries : List Alias)
    → Holds ((base, target), entries) (group aliases [])
    → all_plain casing exchange base target aliases ≡ true
    → (column_of casing aliases exchange (base, target) entries).val
      ≡ resolve_pair casing aliases (base ⊕ "-" ⊕ target) exchange base target
print_instrument_table-resolve_pair casing aliases exchange base target entries row plain =
    column_of-resolve_pair casing exchange base target aliases entries plain
      (group-IsEntry aliases (base, target) entries row)
