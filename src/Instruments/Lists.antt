-- ===== src/Instruments/Lists.antt =====
-- `parse_instruments_list` of rs/src/main.rs: the pairs of a symbol and an exchange that the option
-- `--instruments` names.
pub mod Entries
use cryptomeria.Common.{
  List, [], ◌∷◌, ◌++◌, Bool, true, false, Option, none, some, String, if◌then◌else◌,
}
use cryptomeria.Text.{split, rsplit, trim, is_empty_text}

-- The variables of the loop; of `implied_exchange` it only tests whether it is set.
pub record Reading : Type 0 where
  pub has_implied : Bool
  pub results : List (String × String)

abbrev pub start : Reading
start = record { has_implied = false; results = [] }

-- `results.last()`
abbrev pub last_pair : List (String × String) → Option (String × String)
last_pair [] = none
last_pair (p ∷ []) = some p
last_pair (p ∷ q ∷ ps) = last_pair (q ∷ ps)

abbrev pub add : Reading → String → String → Reading
add r symbol exchange = record r { results = r.results ++ ((symbol, exchange) ∷ []) }

-- "@exchange" takes the symbol of the pair before it, if a pair with an exchange came before
abbrev pub repeat_symbol : Reading → Option (String × String) → String → Reading
repeat_symbol r none exchange = r
repeat_symbol r (some (symbol, e)) exchange = if r.has_implied then add r symbol exchange else r

abbrev pub read_pair : Reading → String → String → Reading
read_pair r symbol exchange =
    if is_empty_text symbol
    then repeat_symbol r (last_pair r.results) exchange
    else add (record r { has_implied = true }) symbol exchange

abbrev pub read_entry : String → Reading → String → Option (String × String) → Reading
read_entry default_exchange r trimmed none = add r trimmed default_exchange
read_entry default_exchange r trimmed (some (symbol, exchange)) = read_pair r symbol exchange

-- one round of the loop
unfoldable pub read_part : String → Reading → String → Reading
read_part default_exchange r part =
    let trimmed = trim part in
    if is_empty_text trimmed then r else read_entry default_exchange r trimmed (rsplit b'@' trimmed)

unfoldable pub read_parts : String → Reading → List String → Reading
read_parts default_exchange r [] = r
read_parts default_exchange r (p ∷ ps) =
    read_parts default_exchange (read_part default_exchange r p) ps

unfoldable pub parse_instruments_list : String → String → List (String × String)
parse_instruments_list input default_exchange =
    (read_parts default_exchange start (split b',' input)).results
