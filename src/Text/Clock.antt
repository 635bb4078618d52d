-- ===== src/Text/Clock.antt =====
-- The time of day as the messages show it, `HH:MM:SS.mmm`: the same code in formatted_time of
-- rs/src/okx/types.rs, rs/src/kraken/types.rs and rs/src/bitstamp/types.rs.
use Prim.Native.Char.{Char, code}
use Prim.Native.String.{[] as end, ◌∷◌ as ◌then◌, ◌++◌ as ◌⊕◌}
use text.Mathlib.TextLemmas.{nil-append, cons-append}
use cryptomeria.Common.{
  ℕ, ◌+◌, ◌-◌, ◌*◌, ◌/◌, ◌%◌, ◌<◌, ◌≤◌, Option, none, some, String, ◌≡◌, inl, inr, arith, ap, ◌∙◌,
  Bool-cases, ltb, refl, zero, suc,
}
use cryptomeria.Text.Decimal.{
  digit, two_digits, three_digits, decimal-one, decimal-two, decimal-three,
}

-- `(secs / 3600) % 24`, `(secs / 60) % 60`, `secs % 60` and the milliseconds
pub record ClockTime : Type 0 where
  pub h : ℕ
  pub m : ℕ
  pub s : ℕ
  pub millis : ℕ

abbrev pub clock_parts : ℕ → ℕ → ClockTime
clock_parts secs millis = record {
  h = secs / 3600 % 24;
  m = secs / 60 % 60;
  s = secs % 60;
  millis = millis;
}

abbrev pub show_clock : ClockTime → String
show_clock t =
    two_digits t.h ⊕ ":" ⊕ two_digits t.m ⊕ ":" ⊕ two_digits t.s ⊕ "." ⊕ three_digits t.millis

-- The time of a message in milliseconds, or else that of the local clock in seconds and milliseconds.
unfoldable pub formatted_time : Option ℕ → ℕ × ℕ → String
formatted_time (some ms) now = show_clock (clock_parts (ms / 1000) (ms % 1000))
formatted_time none (secs, millis) = show_clock (clock_parts secs millis)

abbrev value : Char → ℕ
value c = code c - b'0'

-- What a reader takes a text of this form for, in milliseconds since midnight.
abbrev pub read_clock : String → Option ℕ
read_clock
      (a then b then p then c then d then q then e then f then r then x then y then z then end) =
    some (
      ((value a * 10 + value b) * 3600 + (value c * 10 + value d) * 60 + (value e * 10 + value f))
        * 1000
      + (value x * 100 + value y * 10 + value z))
read_clock _ = none

code-digit : (n : ℕ) → n < 10 → code (digit n) ≡ 48 + n
unfolding digit
code-digit zero h = refl
code-digit (suc zero) h = refl
code-digit (suc (suc zero)) h = refl
code-digit (suc (suc (suc zero))) h = refl
code-digit (suc (suc (suc (suc zero)))) h = refl
code-digit (suc (suc (suc (suc (suc zero))))) h = refl
code-digit (suc (suc (suc (suc (suc (suc zero)))))) h = refl
code-digit (suc (suc (suc (suc (suc (suc (suc zero))))))) h = refl
code-digit (suc (suc (suc (suc (suc (suc (suc (suc zero)))))))) h = refl
code-digit (suc (suc (suc (suc (suc (suc (suc (suc (suc zero))))))))) h = refl
code-digit (suc (suc (suc (suc (suc (suc (suc (suc (suc (suc n)))))))))) h = absurd (omega arith)

value-digit : (n : ℕ) → n < 10 → value (digit n) ≡ n
value-digit n h = omega (arith, code-digit n h)

two_digits_lem : (n : ℕ) → n < 100 → two_digits n ≡ digit (n / 10) then digit (n % 10) then end
unfolding two_digits
two_digits_lem n h = elim (Bool-cases (ltb n 10)) [
  | inl e ↦
      let small : n < 10 = ground (arith, e) in
      let none_before : n / 10 ≡ 0 = omega arith in
      let all : n % 10 ≡ n = omega arith in rw (e, decimal-one n small, none_before, all) refl
  | inr e ↦ let big : 10 ≤ n = ground (arith, e) in rw (e, decimal-two n big h) refl
]

three_digits_lem :
    (n : ℕ)
    → n < 1000
    → three_digits n ≡ digit (n / 10 / 10) then digit (n / 10 % 10) then digit (n % 10) then end
unfolding three_digits
three_digits_lem n h = elim (Bool-cases (ltb n 10)) [
  | inl e ↦
      let small : n < 10 = ground (arith, e) in
      let hundreds : n / 10 / 10 ≡ 0 = omega arith in
      let tens : n / 10 % 10 ≡ 0 = omega arith in
      let all : n % 10 ≡ n = omega arith in rw (e, decimal-one n small, hundreds, tens, all) refl
  | inr e ↦
      let big : 10 ≤ n = ground (arith, e) in
      elim (Bool-cases (ltb n 100)) [
        | inl e' ↦
            let small : n < 100 = ground (arith, e') in
            let hundreds : n / 10 / 10 ≡ 0 = omega arith in
            let tens : n / 10 % 10 ≡ n / 10 = omega arith in
            rw (e, e', decimal-two n big small, hundreds, tens) refl
        | inr e' ↦
            let huge : 100 ≤ n = ground (arith, e') in rw (e, e', decimal-three n huge h) refl
      ]
]

-- The text of a time of day: two digits each for the hours, the minutes and the seconds, and three
-- for the milliseconds.
clock_text : ClockTime → String
clock_text t =
    digit (t.h / 10)
    then digit (t.h % 10)
    then ":"
    then digit (t.m / 10)
    then digit (t.m % 10)
    then ":"
    then digit (t.s / 10)
    then digit (t.s % 10)
    then "."
    then digit (t.millis / 10 / 10)
    then digit (t.millis / 10 % 10)
    then digit (t.millis % 10)
    then end

single : (c : Char) (s : String) → (c then end) ⊕ s ≡ c then s
single c s = cons-append c end s ∙ ap (λ t. c then t) (nil-append s)

show_clock_lem :
    (t : ClockTime)
    → t.h < 100
    → t.m < 100
    → t.s < 100
    → t.millis < 1000
    → show_clock t ≡ clock_text t
unfolding clock_text
show_clock_lem t h m s ms =
    rw
      (
        two_digits_lem t.h h,
        two_digits_lem t.m m,
        two_digits_lem t.s s,
        three_digits_lem t.millis ms,
      )
      (rw (single ":" _)
        (rw (single ":" _) (rw (single "." _) (simp (nil-append, cons-append) refl))))

read_clock-clock_text :
    (t : ClockTime)
    → t.h < 24
    → t.m < 60
    → t.s < 60
    → t.millis < 1000
    → read_clock (clock_text t) ≡ some (((t.h * 60 + t.m) * 60 + t.s) * 1000 + t.millis)
unfolding clock_text
read_clock-clock_text t h m s ms =
    rw
      (
        value-digit (t.h / 10) (omega arith),
        value-digit (t.h % 10) (omega arith),
        value-digit (t.m / 10) (omega arith),
        value-digit (t.m % 10) (omega arith),
        value-digit (t.s / 10) (omega arith),
        value-digit (t.s % 10) (omega arith),
        value-digit (t.millis / 10 / 10) (omega arith),
        value-digit (t.millis / 10 % 10) (omega arith),
        value-digit (t.millis % 10) (omega arith),
      )
      (ap some (omega arith))

-- The time that a message with a time shows is that time within its day (in UTC), whatever the local
-- clock: reading the text gives the milliseconds since midnight.
pub read_clock-formatted_time :
    (ms : ℕ) (now : ℕ × ℕ) → read_clock (formatted_time (some ms) now) ≡ some (ms % 86_400_000)
unfolding formatted_time
read_clock-formatted_time ms now =
    let t = clock_parts (ms / 1000) (ms % 1000) in
    ap read_clock (show_clock_lem t (omega arith) (omega arith) (omega arith) (omega arith))
    ∙ read_clock-clock_text t (omega arith) (omega arith) (omega arith) (omega arith)
    ∙ ap some (omega arith)
