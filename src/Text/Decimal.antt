-- ===== src/Text/Decimal.antt =====
-- The formatting of natural numbers that the program uses: `{}`, `{:02}` and `{:03}`, and `join` of
-- texts.
use Prim.Native.Char.{Char}
use Prim.Native.String.{[] as end, ◌∷◌ as ◌then◌, ◌++◌ as ◌⊕◌}
use cryptomeria.Common.{
  ℕ, zero, suc, ◌/◌, ◌%◌, ◌≤◌, ◌<◌, List, [], ◌∷◌, String, ◌≡◌, ◌==◌, refl, ◌∙◌, sym, Bool, true,
  false, ltb, arith, if◌then◌else◌,
}

unfoldable pub digit : ℕ → Char
digit n =
    if n == 0
    then "0"
    else if n == 1
    then "1"
    else if n == 2
    then "2"
    else if n == 3
    then "3"
    else if n == 4
    then "4"
    else if n == 5
    then "5"
    else if n == 6
    then "6"
    else if n == 7
    then "7"
    else if n == 8
    then "8"
    else "9"

-- The digits of a number before a text; `fuel` bounds their number.
unfoldable pub decimal_before : ℕ → ℕ → String → String
decimal_before zero n out = out
decimal_before (suc fuel) n out =
    let rest = decimal_before fuel (n / 10) (digit (n % 10) then out) in
    if ltb n 10 then digit n then out else rest

-- `{}`: a number has at most as many digits as one more than the number
unfoldable pub decimal : ℕ → String
decimal n = decimal_before (suc n) n end

-- `{:02}` and `{:03}`
unfoldable pub two_digits : ℕ → String
two_digits n = if ltb n 10 then digit 0 then decimal n else decimal n

unfoldable pub three_digits : ℕ → String
three_digits n =
    if ltb n 10
    then digit 0
    then digit 0
    then decimal n
    else if ltb n 100
    then digit 0
    then decimal n
    else decimal n

-- `[String]::join`
abbrev pub join : String → List String → String
join sep [] = ""
join sep (s ∷ []) = s
join sep (s ∷ rest) = s ⊕ sep ⊕ join sep rest

else_cong :
    (small : Bool) (s : String) {x y : String}
    → (small ≡ false → x ≡ y)
    → (if small then s else x) ≡ (if small then s else y)
else_cong true s h = refl
else_cong false s h = h refl

decimal_before-next :
    (fuel n : ℕ) (out : String)
    → decimal_before (suc fuel) n out ≡ (
        if ltb n 10
        then digit n
        then out
        else decimal_before fuel (n / 10) (digit (n % 10) then out))
unfolding decimal_before
decimal_before-next fuel n out = refl

-- More fuel than the number changes nothing.
decimal_before-enough :
    (fuel n : ℕ) (out : String)
    → n < fuel
    → decimal_before (suc fuel) n out ≡ decimal_before fuel n out
decimal_before-enough zero n out h = ground arith
decimal_before-enough (suc fuel) n out h =
    decimal_before-next (suc fuel) n out
    ∙ else_cong (ltb n 10) (digit n then out)
        (λ large. decimal_before-enough fuel (n / 10) (digit (n % 10) then out) (ground arith))
    ∙ sym (decimal_before-next fuel n out)

pub decimal-one : (n : ℕ) → n < 10 → decimal n ≡ digit n then end
unfolding decimal decimal_before
decimal-one n h = ground arith

pub decimal-two :
    (n : ℕ) → 10 ≤ n → n < 100 → decimal n ≡ digit (n / 10) then digit (n % 10) then end
unfolding decimal decimal_before
decimal-two zero h k = ground arith
decimal-two (suc m) h k = ground arith

pub decimal-three :
    (n : ℕ)
    → 100 ≤ n
    → n < 1000
    → decimal n ≡ digit (n / 10 / 10) then digit (n / 10 % 10) then digit (n % 10) then end
unfolding decimal decimal_before
decimal-three zero h k = ground arith
decimal-three (suc zero) h k = ground arith
decimal-three (suc (suc m)) h k = ground arith
