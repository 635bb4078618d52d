-- ===== src/Tests/Instruments.antt =====
-- Instruments of the command line, over the aliases of the program.
use Prim.Native.String.{◌∷◌ as ◌then◌, ◌++◌ as ◌⊕◌}
use text.Mathlib.Text.{◌==◌ as str_eq}
use cryptomeria.Common.{List, [], ◌∷◌, false, some, String, ◌≡◌, ◌↔◌, refl, map, if◌then◌else◌}
use cryptomeria.Text.{split, rsplit, trim_start, trim_end, contains_char, replace_char, drop_chars}
use cryptomeria.Text.Laws.{join}
use cryptomeria.Instruments.{find_fallback_target, eq_ignore_ascii_case}
use cryptomeria.Instruments.Aliases.{coin_aliases}
use cryptomeria.Instruments.Names.{
  Casing, at_sign, parse_exchange_override, format_instrument, cli_id,
}
use cryptomeria.Instruments.Names.Override.{parse_exchange_override_iff}
use cryptomeria.Instruments.Lists.{parse_instruments_list, read_parts, read_part}
use cryptomeria.Instruments.Lists.Entries.{
  Entry, named, same, plain, comma, write, meaning, parse_instruments_list-join,
}
use cryptomeria.Instruments.Resolve.{find_target, resolve_one_instrument}
use cryptomeria.Instruments.Resolve.Sound.{Served, resolve_one_instrument-Served}

-- The mappings at the texts below, which are in capitals where they are symbols.
abbrev lower : String → String
lower s = if str_eq s "ETH/USDT" then "eth/usdt" else s

abbrev casing : Casing
casing = record { to_lowercase = lower; to_uppercase = λ s. s }

abbrev instrument : String
instrument = "ETH/USDT@kraken"

fallback_on_kraken :
    resolve_one_instrument casing coin_aliases instrument "okx" ≡ ("ETH/USD", "kraken", "ethusdt")
unfolding resolve_one_instrument parse_exchange_override rsplit split contains_char find_target
    find_fallback_target eq_ignore_ascii_case format_instrument replace_char cli_id drop_chars
fallback_on_kraken = refl

parse_exchange_override_iff_example :
    (parse_exchange_override instrument ≡ ("ETH/USDT", some "kraken"))
    ↔ ((instrument ≡ "ETH/USDT" ⊕ (at_sign then "kraken")) × (contains_char b'@' "kraken" ≡ false))
parse_exchange_override_iff_example = parse_exchange_override_iff instrument "ETH/USDT" "kraken"

resolve_one_instrument-Served_example :
    Served casing coin_aliases "ETH/USDT" "kraken" "ETH" "USDT"
      (resolve_one_instrument casing coin_aliases instrument "okx").0
unfolding parse_exchange_override rsplit split contains_char
resolve_one_instrument-Served_example =
    resolve_one_instrument-Served casing coin_aliases instrument "okx" "ETH/USDT" "ETH" "USDT"
      (some "kraken") refl refl

abbrev more : List Entry
more = same "bitstamp" ∷ plain "SOL-USDT" ∷ same "kraken" ∷ []

parse_instruments_list-join_example :
    parse_instruments_list (join comma (map write (named "BTC-USD" "kraken" ∷ more))) "okx"
    ≡ ("BTC-USD", "kraken") ∷ meaning "okx" "BTC-USD" more
unfolding contains_char trim_start trim_end
parse_instruments_list-join_example = parse_instruments_list-join "okx" "BTC-USD" "kraken" more (
  ((refl, refl), refl, refl),
  ((refl, refl, refl), (((refl, refl), refl, refl), ((refl, refl, refl), tt))),
)

read_padded :
    parse_instruments_list " BTC-USD@kraken , @bitstamp,,SOL-USDT" "okx"
    ≡ ("BTC-USD", "kraken") ∷ ("BTC-USD", "bitstamp") ∷ ("SOL-USDT", "okx") ∷ []
unfolding parse_instruments_list read_parts read_part split rsplit trim_start trim_end
read_padded = refl
