-- ===== src/Instruments.antt =====
-- `find_fallback_target` of rs/src/main.rs: which dollar currency stands in for one that an exchange
-- does not trade. `to_uppercase` is `str::to_uppercase`, a mapping of all of Unicode.
pub mod Fallback
pub mod Names
pub mod Lists
pub mod Aliases
pub mod Resolve
use Prim.Native.Char.{code}
use Prim.Native.String.{[] as end, ◌∷◌ as ◌then◌}
use text.Mathlib.Text.{◌==◌ as str_eq}
use cryptomeria.Common.{
  ℕ, ◌+◌, List, [], ◌∷◌, Bool, true, false, ◌&&◌, ◌||◌, not, Option, none, some, String, leb, ◌==◌,
  if◌then◌else◌,
}

-- the code of a character, with the capitals A to Z made small
abbrev pub small_code : ℕ → ℕ
small_code n = if leb 65 n && leb n 90 then n + 32 else n

-- `str::eq_ignore_ascii_case`
unfoldable pub eq_ignore_ascii_case : String → String → Bool
eq_ignore_ascii_case end end = true
eq_ignore_ascii_case end (d then t) = false
eq_ignore_ascii_case (c then s) end = false
eq_ignore_ascii_case (c then s) (d then t) =
    (small_code (code c) == small_code (code d)) && eq_ignore_ascii_case s t

-- `available.iter().any(|t| t.eq_ignore_ascii_case(target))`
abbrev pub has_target : List String → String → Bool
has_target [] target = false
has_target (t ∷ ts) target = eq_ignore_ascii_case t target || has_target ts target

abbrev pub is_dollar : String → Bool
is_dollar target = str_eq target "USDC" || (str_eq target "USDT" || str_eq target "USD")

-- the last arm, for a spelling in other letters
abbrev pub any_dollar : Bool → Bool → Bool → Option String
any_dollar has_usdc has_usdt has_usd =
    if has_usdt
    then some "USDT"
    else if has_usdc
    then some "USDC"
    else if has_usd
    then some "USD"
    else none

module _ (to_uppercase : String → String) where
  abbrev pub other_spelling : String → Bool → Bool → Bool → Option String
  other_spelling requested has_usdc has_usdt has_usd =
      if is_dollar (to_uppercase requested) then any_dollar has_usdc has_usdt has_usd else none

  -- the arms of the `match`, with their guards
  abbrev pub fallback_arms : String → Bool → Bool → Bool → Option String
  fallback_arms requested has_usdc has_usdt has_usd =
      if str_eq requested "USDC" && (not has_usdc && has_usdt)
      then some "USDT"
      else if str_eq requested "USDT" && (not has_usdt && has_usdc)
      then some "USDC"
      else if (str_eq requested "USDC" || str_eq requested "USDT")
          && (not has_usdc && (not has_usdt && has_usd))
      then some "USD"
      else if str_eq requested "USD" && not has_usd
      then (if has_usdt then some "USDT" else if has_usdc then some "USDC" else none)
      else other_spelling requested has_usdc has_usdt has_usd

  unfoldable pub find_fallback_target : String → List String → Option String
  find_fallback_target requested available =
      if has_target available requested
      then none
      else fallback_arms requested (has_target available "USDC") (has_target available "USDT")
          (has_target available "USD")
