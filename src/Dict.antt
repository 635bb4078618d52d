-- ===== src/Dict.antt =====
-- `HashMap`, and the vectors of gauges of the prometheus crate, as lists of entries without an order
-- that the program relies on.
use text.Mathlib.Text.{◌==◌ as str_eq}
use text.Mathlib.TextEquality.{eq_iff}
use cryptomeria.Common.{
  List, [], ◌∷◌, Bool, true, Option, none, some, String, ◌≡◌, ◌↔◌, refl, arith, if◌then◌else◌,
}

pub record Key {ℓ} (K : Type ℓ) : Type ℓ where
  pub same : K → K → Bool
  pub same_iff : (a b : K) → (same a b ≡ true) ↔ (a ≡ b)

instance abbrev pub text_key : Key String
text_key = record { same = str_eq; same_iff = eq_iff }

abbrev pub Dict {ℓ κ} : Type ℓ → Type κ → Type (ℓ ⊔ κ)
Dict K V = List (K × V)

abbrev pub map_value {κ} : {V : Type κ} → (V → V) → Option V → Option V
map_value f none = none
map_value f (some v) = some (f v)

module _ {ℓ κ} {K : Type ℓ} {V : Type κ} ⦃key : Key K⦄ where
  unfoldable pub get : K → Dict K V → Option V
  get k [] = none
  get k ((j, v) ∷ d) = if key.same j k then some v else get k d

  unfoldable pub insert : K → V → Dict K V → Dict K V
  insert k v [] = (k, v) ∷ []
  insert k v ((j, w) ∷ d) = if key.same j k then (k, v) ∷ d else (j, w) ∷ insert k v d

  -- `get_mut`, and a change of what it finds
  unfoldable pub modify : K → (V → V) → Dict K V → Dict K V
  modify k f [] = []
  modify k f ((j, w) ∷ d) = if key.same j k then (j, f w) ∷ d else (j, w) ∷ modify k f d

  pub get-insert :
      (k j : K) (v : V) (d : Dict K V)
      → get j (insert k v d) ≡ (if key.same k j then some v else get j d)
  unfolding get insert
  get-insert k j v [] = refl
  get-insert k j v ((i, w) ∷ d) =
      ground (arith, key.same_iff k j, key.same_iff i k, key.same_iff i j, get-insert k j v d)

  pub get-modify :
      (k j : K) (f : V → V) (d : Dict K V)
      → get j (modify k f d) ≡ (if key.same k j then map_value f (get j d) else get j d)
  unfolding get modify
  get-modify k j f [] = ground arith
  get-modify k j f ((i, w) ∷ d) =
      ground (arith, key.same_iff k j, key.same_iff i k, key.same_iff i j, get-modify k j f d)
