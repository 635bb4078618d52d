-- ===== src/Float/Fixed.antt =====
-- Fixed-point numbers with four decimals and NaN, which meet the laws of `Float`.
use text.Mathlib.Text.{◌==◌ as str_eq}
use cryptomeria.Common.{
  ℕ, ◌+◌, ◌-◌, ◌*◌, ◌/◌, Bool, true, false, Option, none, some, Ordering, lt, eq, gt, compare,
  String, arith, if◌then◌else◌, List, [], ◌∷◌,
}
use cryptomeria.Float.{Float, IsPreorder, IsLawful}

abbrev pub Fixed : Type 0
Fixed = Option ℕ

abbrev scale : ℕ
scale = 10_000

-- `NaN` stands above every number, and equals itself.
abbrev pub fixed_cmp : Fixed → Fixed → Ordering
fixed_cmp (some a) (some b) = compare a b
fixed_cmp (some a) none = lt
fixed_cmp none (some b) = gt
fixed_cmp none none = eq

abbrev pub fixed_partial_cmp : Fixed → Fixed → Option Ordering
fixed_partial_cmp (some a) (some b) = some (compare a b)
fixed_partial_cmp (some a) none = none
fixed_partial_cmp none _ = none

abbrev pub fixed_is_nan : Fixed → Bool
fixed_is_nan none = true
fixed_is_nan (some a) = false

abbrev on_numbers : (ℕ → ℕ → ℕ) → Fixed → Fixed → Fixed
on_numbers op (some a) (some b) = some (op a b)
on_numbers op (some a) none = none
on_numbers op none _ = none

-- The texts of the tests.
abbrev known : List (String × Fixed)
known =
    ("0", some 0)
    ∷ ("1", some 10_000)
    ∷ ("2", some 20_000)
    ∷ ("3", some 30_000)
    ∷ ("5", some 50_000)
    ∷ ("99", some 990_000)
    ∷ ("100", some 1_000_000)
    ∷ ("101", some 1_010_000)
    ∷ ("102", some 1_020_000)
    ∷ ("NaN", none)
    ∷ []

abbrev find : List (String × Fixed) → String → Option Fixed
find [] s = none
find ((t, v) ∷ rest) s = let later = find rest s in if str_eq t s then some v else later

instance abbrev pub fixed_float : Float Fixed
fixed_float = record {
  partial_cmp = fixed_partial_cmp;
  cmp = fixed_cmp;
  is_nan = fixed_is_nan;
  add = on_numbers (λ a b. a + b);
  sub = on_numbers (λ a b. a - b);
  mul = on_numbers (λ a b. a * b / scale);
  div = on_numbers (λ a b. a * scale / b);
  nought = some 0;
  one = some scale;
  hundred = some (100 * scale);
  parse = find known;
}

pub fixed_cmp-IsPreorder : IsPreorder fixed_cmp
fixed_cmp-IsPreorder = ground arith

pub Fixed-IsLawful : IsLawful Fixed
Fixed-IsLawful = record {
  preorder = fixed_cmp-IsPreorder;
  partial_nan = ground arith;
  nan_partial = ground arith;
  partial_num = ground arith;
}
