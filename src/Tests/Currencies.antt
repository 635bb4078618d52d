-- ===== src/Tests/Currencies.antt =====
-- Fallbacks over the currencies of a few listings.
use cryptomeria.Common.{List, [], ◌∷◌, true, false, some, String, ◌≡◌, refl}
use cryptomeria.Instruments.{has_target, eq_ignore_ascii_case, find_fallback_target}
use cryptomeria.Instruments.Fallback.{find_fallback_target-available}

-- The requests of the examples are in capitals already.
abbrev same : String → String
same text = text

abbrev traded : List String
traded = "EUR" ∷ "usdt" ∷ []

for_dollars : find_fallback_target same "USD" traded ≡ some "USDT"
unfolding find_fallback_target eq_ignore_ascii_case
for_dollars = refl

find_fallback_target-available_example :
    (has_target traded "USDT" ≡ true) × (has_target traded "USD" ≡ false)
find_fallback_target-available_example =
    find_fallback_target-available same "USD" traded for_dollars
