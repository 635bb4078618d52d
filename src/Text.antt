-- ===== src/Text.antt =====
-- The methods of Rust's `str` that the program calls on names and lists of names.
pub mod Laws
pub mod Decimal
pub mod Clock
use Prim.Native.Char.{Char, code}
use Prim.Native.String.{[] as end, ◌∷◌ as ◌then◌}
use cryptomeria.Common.{
  ℕ, List, [], ◌∷◌, Bool, true, false, ◌&&◌, ◌||◌, Option, none, some, String, leb, ◌==◌,
  if◌then◌else◌,
}

-- `char::is_whitespace`: the property White_Space of Unicode
abbrev pub is_white : ℕ → Bool
is_white n =
    (leb 9 n && leb n 13)
    || ((n == 32)
        || ((n == 133)
            || ((n == 160)
                || ((n == 5760)
                    || ((leb 8192 n && leb n 8202)
                        || ((n == 8232)
                            || ((n == 8233)
                                || ((n == 8239) || ((n == 8287) || (n == 12_288))))))))))

abbrev pub is_empty_text : String → Bool
is_empty_text end = true
is_empty_text (c then s) = false

-- `str::contains` with a character, given by its code
unfoldable pub contains_char : ℕ → String → Bool
contains_char k end = false
contains_char k (c then s) = (code c == k) || contains_char k s

abbrev pub push_front : Char → List String → List String
push_front c [] = (c then end) ∷ []
push_front c (p ∷ ps) = (c then p) ∷ ps

-- `str::split` with a character
unfoldable pub split : ℕ → String → List String
split k end = end ∷ []
split k (c then s) = let rest = split k s in if code c == k then end ∷ rest else push_front c rest

abbrev pub before_char : ℕ → Char → String → Option (String × String) → Option (String × String)
before_char k c s (some (a, b)) = some (c then a, b)
before_char k c s none = if code c == k then some (end, s) else none

-- `str::rfind` with an ASCII character, and what stands before and behind it
unfoldable pub rsplit : ℕ → String → Option (String × String)
rsplit k end = none
rsplit k (c then s) = before_char k c s (rsplit k s)

unfoldable pub trim_start : String → String
trim_start end = end
trim_start (c then s) = let rest = trim_start s in if is_white (code c) then rest else c then s

abbrev pub push_trimmed : Char → String → String
push_trimmed c end = if is_white (code c) then end else c then end
push_trimmed c (d then s) = c then d then s

unfoldable pub trim_end : String → String
trim_end end = end
trim_end (c then s) = push_trimmed c (trim_end s)

-- `str::trim`
abbrev pub trim : String → String
trim s = trim_end (trim_start s)

-- `str::replace` of one character by another
unfoldable pub replace_char : ℕ → Char → String → String
replace_char k d end = end
replace_char k d (c then s) = (if code c == k then d else c) then replace_char k d s

-- `str::replace` of characters by nothing
unfoldable pub drop_chars : (ℕ → Bool) → String → String
drop_chars test end = end
drop_chars test (c then s) =
    let rest = drop_chars test s in if test (code c) then rest else c then rest
