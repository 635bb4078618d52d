-- ===== src/Text/Laws.antt =====
-- How splitting and joining undo each other.
use Prim.Native.Char.{Char, code}
use Prim.Native.String.{[] as end, ◌∷◌ as ◌then◌, ◌++◌ as ◌⊕◌}
use text.Mathlib.TextLemmas.{nil-append, cons-append, append-nil}
use cryptomeria.Common.{
  ℕ, List, [], ◌∷◌, true, false, none, some, String, ◌≡◌, refl, ap, ◌∙◌, sym, ◌==◌, ==_iff,
  if◌then◌else◌, All, Bool-cases, Option-cases, inl, inr,
}
use cryptomeria.Text.{contains_char, split, push_front, rsplit}

-- The texts, each behind the separator.
unfoldable pub separated : Char → List String → String
separated c [] = end
separated c (p ∷ ps) = c then (p ⊕ separated c ps)

-- `join` with a separator of one character
unfoldable pub join : Char → List String → String
unfolding separated
join c [] = end
join c (p ∷ ps) = p ⊕ separated c ps

==_refl : (n : ℕ) → (n == n) ≡ true
==_refl n = (==_iff n n).1 refl

prepend : String → List String → List String
prepend p [] = p ∷ []
prepend p (q ∷ qs) = (p ⊕ q) ∷ qs

split-cons : (k : ℕ) (s : String) → (q : String) × (qs : List String) × (split k s ≡ q ∷ qs)
unfolding split
split-cons k end = (end, [], refl)
split-cons k (c then s) =
    let (q, qs, e) = split-cons k s in
    elim (Bool-cases (code c == k)) [
      | inl sep ↦ (end, split k s, rw sep)
      | inr other ↦ (c then q, qs, rw (other, e))
    ]

prepend-push_front :
    (c : Char) (p : String) (qs : List String) → push_front c (prepend p qs) ≡ prepend (c then p) qs
unfolding prepend
prepend-push_front c p [] = refl
prepend-push_front c p (q ∷ qs) = ap (λ t. t ∷ qs) (sym (cons-append c p q))

lacks-head :
    (k : ℕ) (c : Char) (s : String)
    → contains_char k (c then s) ≡ false
    → ((code c == k) ≡ false) × (contains_char k s ≡ false)
unfolding contains_char
lacks-head k c s h = elim (Bool-cases (code c == k)) [
  | inl e ↦ cc (rw e at h)
  | inr e ↦ (e, rw e at h)
]

split-prefix :
    (k : ℕ) (p rest : String)
    → contains_char k p ≡ false
    → split k (p ⊕ rest) ≡ prepend p (split k rest)
unfolding split prepend
split-prefix k end rest h =
    let (q, qs, e) = split-cons k rest in
    rw (nil-append rest) (rw e (ap (λ t. t ∷ qs) (sym (nil-append q))))
split-prefix k (c then s) rest h =
    let (other, h') = lacks-head k c s h in
    rw (cons-append c s rest)
      (rw other (ap (push_front c) (split-prefix k s rest h') ∙ prepend-push_front c s _))

split-separated :
    (c : Char) (ps : List String)
    → All (λ p. contains_char (code c) p ≡ false) ps
    → split (code c) (separated c ps) ≡ end ∷ ps
unfolding split separated prepend
split-separated c [] h = refl
split-separated c (p ∷ ps) (h, hs) = rw (==_refl (code c)) (
    ap (◌∷◌ end) (
      split-prefix (code c) p (separated c ps) h
      ∙ rw (split-separated c ps hs) (ap (λ q. q ∷ ps) (append-nil p))))

-- A list of texts without the separator is split from its join as it was.
pub split-join :
    (c : Char) (p : String) (ps : List String)
    → contains_char (code c) p ≡ false
    → All (λ p. contains_char (code c) p ≡ false) ps
    → split (code c) (join c (p ∷ ps)) ≡ p ∷ ps
unfolding join prepend
split-join c p ps h hs =
    split-prefix (code c) p (separated c ps) h
    ∙ rw (split-separated c ps hs) (ap (λ q. q ∷ ps) (append-nil p))

pub rsplit-none : (k : ℕ) (s : String) → contains_char k s ≡ false → rsplit k s ≡ none
unfolding rsplit contains_char
rsplit-none k end h = refl
rsplit-none k (c then s) h =
    let (other, h') = lacks-head k c s h in rw (rsplit-none k s h') (rw other refl)

-- The last separator is found, if none stands behind it.
pub rsplit-append :
    (c : Char) (s e : String)
    → contains_char (code c) e ≡ false
    → rsplit (code c) (s ⊕ (c then e)) ≡ some (s, e)
unfolding rsplit
rsplit-append c end e h =
    rw (nil-append (c then e)) (rw (rsplit-none (code c) e h) (rw (==_refl (code c)) refl))
rsplit-append c (d then s) e h = rw (cons-append d s (c then e)) (rw (rsplit-append c s e h) refl)

rsplit-eq-none : (k : ℕ) (s : String) → rsplit k s ≡ none → contains_char k s ≡ false
unfolding rsplit contains_char
rsplit-eq-none k end h = refl
rsplit-eq-none k (c then s) h = elim (Option-cases (rsplit k s)) [
  | inr ((a, b), e) ↦ cc (rw e at h)
  | inl e ↦ elim (Bool-cases (code c == k)) [
    | inl here ↦ cc (rw here at (rw e at h))
    | inr other ↦ rw other (rsplit-eq-none k s e)
  ]
]

-- What `rsplit` finds stands on the two sides of a separator, the last one.
pub rsplit-eq-some :
    (k : ℕ) (s : String) {a b : String}
    → rsplit k s ≡ some (a, b)
    → (c : Char) × (code c ≡ k) × (s ≡ a ⊕ (c then b)) × (contains_char k b ≡ false)
unfolding rsplit
rsplit-eq-some k end h = cc
rsplit-eq-some k (c then s) {a} {b} h = elim (Option-cases (rsplit k s)) [
  | inr ((a', b'), e) ↦
      let (d, same, split_s, last) = rsplit-eq-some k s e in
      let both = rw e at h in
      let first : c then a' ≡ a = cc both in
      let second : b' ≡ b = cc both in
      (
        d,
        same,
        rw (← first, ← second) (ap (◌then◌ c) split_s ∙ sym (cons-append c a' (d then b'))),
        rw (← second) last,
      )
  | inl e ↦ elim (Bool-cases (code c == k)) [
    | inr other ↦ cc (rw other at (rw e at h))
    | inl here ↦
        let both = rw here at (rw e at h) in
        let first : end ≡ a = cc both in
        let second : s ≡ b = cc both in
        (
          c,
          (==_iff (code c) k).0 here,
          rw (← first, ← second) (sym (nil-append (c then s))),
          rw (← second) (rsplit-eq-none k s e),
        )
  ]
]
