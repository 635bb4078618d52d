-- ===== src/Instruments/Resolve/Sound.antt =====
-- What an instrument is resolved to.
use Prim.Native.Char.{code}
use Prim.Native.String.{[] as end, ◌∷◌ as ◌then◌}
use text.Mathlib.Text.{◌==◌ as str_eq}
use text.Mathlib.TextEquality.{eq_iff}
use cryptomeria.Common.{
  List, [], ◌∷◌, true, false, Option, none, some, String, ◌≡◌, ◌⊎◌, refl, arith, inl, inr,
  Bool-cases, Option-cases, ==_iff, if◌then◌else◌,
}
use cryptomeria.Text.{split}
use cryptomeria.Instruments.{has_target, eq_ignore_ascii_case, find_fallback_target, small_code}
use cryptomeria.Instruments.Fallback.{find_fallback_target-available}
use cryptomeria.Instruments.Aliases.{Alias}
use cryptomeria.Instruments.Names.{Casing, parse_exchange_override, format_instrument}
use cryptomeria.Instruments.Resolve.{
  effective, available_targets, find_target, pair_id, choose, separator, resolve_one_instrument,
}

pub eq_ignore_ascii_case_refl : (s : String) → eq_ignore_ascii_case s s ≡ true
unfolding eq_ignore_ascii_case
eq_ignore_ascii_case_refl end = refl
eq_ignore_ascii_case_refl (c then s) =
    rw ((==_iff (small_code (code c)) (small_code (code c))).1 refl) (eq_ignore_ascii_case_refl s)

module _ (casing : Casing) (aliases : List Alias) where
  find_target-has_target :
      (target : String) (available : List String) {t : String}
      → find_target casing aliases target available ≡ some t
      → (has_target available t ≡ true) × (casing.to_uppercase t ≡ target)
  unfolding find_target
  find_target-has_target target [] h = cc
  find_target-has_target target (u ∷ us) {t} h =
      elim (Bool-cases (str_eq (casing.to_uppercase u) target)) [
        | inl e ↦
            let same : u ≡ t = cc (rw e at h) in
            (
              rw (← same) (rw (eq_ignore_ascii_case_refl u) refl),
              rw (← same) ((eq_iff (casing.to_uppercase u) target).0 e),
            )
        | inr e ↦
            let (there, upper) = find_target-has_target target us (rw e at h) in
            (ground (arith, there), upper)
      ]

  -- What a symbol of the two parts `base` and `target` becomes on an exchange: itself, if none of
  -- the targets listed there serves; or the base with such a target, which is the requested one, or
  -- another where the requested one is not listed.
  abbrev pub Served : String → String → String → String → String → Type 0
  Served symbol exchange base target formatted =
      let available = available_targets casing aliases exchange base in
      ((formatted ≡ format_instrument casing symbol exchange)
        × (find_target casing aliases target available ≡ none)
        × (find_fallback_target casing.to_uppercase target available ≡ none))
      ⊎ ((t : String) × (formatted ≡ pair_id casing aliases exchange base t)
          × (has_target available t ≡ true)
          × ((casing.to_uppercase t ≡ target) ⊎ (has_target available target ≡ false)))

  choose-Served :
      (symbol exchange base target : String)
      → let available = available_targets casing aliases exchange base in
        Served symbol exchange base target (
          choose casing aliases symbol exchange base target available
            (find_target casing aliases target available))
  choose-Served symbol exchange base target =
      let available = available_targets casing aliases exchange base in
      elim (Option-cases (find_target casing aliases target available)) [
        | inr (t, e) ↦
            let (there, upper) = find_target-has_target target available e in
            inr (t, rw e, there, inl upper)
        | inl e ↦ elim (Option-cases (find_fallback_target casing.to_uppercase target available)) [
          | inr (t, f) ↦
              let (there, missing) =
                find_fallback_target-available casing.to_uppercase target available f in
              inr (t, rw e (rw f), there, inr missing)
          | inl f ↦ inl (rw e (rw f), e, f)
        ]
      ]

  -- An instrument whose symbol has two parts is resolved to itself, if neither its target nor a
  -- fallback for it is listed for its base on the exchange; or to the base with a target that is
  -- listed there, which is the requested one, or another where the requested one is not listed.
  pub resolve_one_instrument-Served :
      (instrument exchange symbol base target : String) (override : Option String)
      → parse_exchange_override instrument ≡ (symbol, override)
      → split (separator casing aliases symbol) symbol ≡ base ∷ target ∷ []
      → Served symbol
          (effective casing aliases override exchange)
          (casing.to_uppercase base)
          (casing.to_uppercase target)
          (resolve_one_instrument casing aliases instrument exchange).0
  unfolding resolve_one_instrument
  resolve_one_instrument-Served instrument exchange symbol base target override read parts =
      rw (read, parts)
        (choose-Served symbol (effective casing aliases override exchange)
          (casing.to_uppercase base) (casing.to_uppercase target))
