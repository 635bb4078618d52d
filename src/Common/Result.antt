-- ===== src/Common/Result.antt =====
-- Results with an error text, and computations on a state that give one.
use mathlib.Core.Path.{◌≡◌, refl}
use mathlib.Core.Logic.{◌⊎◌, inl, inr}
use Prim.Native.String.{String}

pub data Result {ℓ} (A : Type ℓ) : Type ℓ where
  ok : A → Result A
  err : String → Result A

abbrev pub Task {ℓ κ} : Type ℓ → Type κ → Type (ℓ ⊔ κ)
Task S A = S → Result A × S

module _ {ℓ κ} {S : Type ℓ} {A : Type κ} where
  abbrev pub done : A → Task S A
  done a s = (ok a, s)

  abbrev pub failed : String → Task S A
  failed e s = (err e, s)

  -- A result that was computed already, as a step.
  abbrev pub result : Result A → Task S A
  result r s = (r, s)

  -- `Result::map_err`
  abbrev pub label : (String → String) → Result A × S → Result A × S
  label f (ok a, s) = (ok a, s)
  label f (err e, s) = (err (f e), s)

  abbrev pub map_err : (String → String) → Task S A → Task S A
  map_err f m s = label f (m s)

module _ {ℓ κ μ} {S : Type ℓ} {A : Type κ} {B : Type μ} where
  abbrev pub resume : (A → Task S B) → Result A × S → Result B × S
  resume k (ok a, s) = k a s
  resume k (err e, s) = (err e, s)

  infixl 5 ◌>>=◌
  abbrev pub ◌>>=◌ : Task S A → (A → Task S B) → Task S B
  (m >>= k) s = resume k (m s)

module _ {ℓ κ} {S : Type ℓ} {B : Type κ} where
  infixl 5 ◌>>◌
  abbrev pub ◌>>◌ : Task S (Unit {0}) → Task S B → Task S B
  m >> k = m >>= λ _. k

pub Result-cases {ℓ κ} :
    {S : Type ℓ} {A : Type κ} (r : Result A × S)
    → ((a : A) × ((s : S) × (r ≡ (ok a, s)))) ⊎ ((e : String) × ((s : S) × (r ≡ (err e, s))))
Result-cases (ok a, s) = inl (a, (s, refl))
Result-cases (err e, s) = inr (e, (s, refl))
