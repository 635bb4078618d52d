-- ===== src/Common/Perms.antt =====
-- What is kept of a permutation is a permutation of what is kept.
use mathlib.Core.Logic.{∥∥₁_elim, ∥∥₁_prop, inl, inr}
use mathlib.Core.Path.{subst}
use mathlib.Core.Bool.{Bool}
use mathlib.Core.List.{List, ◌∷◌, Perm, Permᴰ}
use mathlib.Core.List.Perm
use cryptomeria.Common.Lists.{keep}
use cryptomeria.Common.Tests.{Bool-cases}

module _ {ℓ} {A : Type ℓ} (test : A → Bool) where
  keep-cons :
      (a : A) (xs ys : List A)
      → Perm (keep test xs) (keep test ys)
      → Perm (keep test (a ∷ xs)) (keep test (a ∷ ys))
  keep-cons a xs ys p = elim (Bool-cases (test a)) [ inl e ↦ rw e (Perm.cons a p) | inr e ↦ rw e p ]

  keep-swap : (a b : A) (xs : List A) → Perm (keep test (a ∷ (b ∷ xs))) (keep test (b ∷ (a ∷ xs)))
  keep-swap a b xs = elim (Bool-cases (test a)) [
    | inl e ↦ elim (Bool-cases (test b)) [
      | inl g ↦ rw (e, g) (Perm.swap b a (keep test xs))
      | inr g ↦ rw (e, g) Perm.rfl
    ]
    | inr e ↦ rw e Perm.rfl
  ]

  keep-Permᴰ : {xs ys : List A} → Permᴰ xs ys → Perm (keep test xs) (keep test ys)
  keep-Permᴰ Permᴰ.nil = Perm.rfl
  keep-Permᴰ (Permᴰ.cons {a = a} {b = b} {l₁ = xs} {l₂ = ys} e p) =
      subst (λ c. Perm (keep test (a ∷ xs)) (keep test (c ∷ ys))) e
        (keep-cons a xs ys (keep-Permᴰ p))
  keep-Permᴰ (Permᴰ.swap {a = a} {b = b} {a' = c} {b' = d} {l = xs} e g) =
      subst (λ x. Perm (keep test (a ∷ (b ∷ xs))) (keep test (x ∷ (d ∷ xs)))) g
        (subst (λ x. Perm (keep test (a ∷ (b ∷ xs))) (keep test (b ∷ (x ∷ xs)))) e
          (keep-swap a b xs))
  keep-Permᴰ (Permᴰ.trans p q) = Perm.trans (keep-Permᴰ p) (keep-Permᴰ q)

  pub keep-perm : {xs ys : List A} → Perm xs ys → Perm (keep test xs) (keep test ys)
  keep-perm p = ∥∥₁_elim p ∥∥₁_prop keep-Permᴰ
