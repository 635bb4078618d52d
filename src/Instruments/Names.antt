-- ===== src/Instruments/Names.antt =====
-- How rs/src/main.rs reads an instrument with an exchange, and how it writes one for an exchange.
pub mod Override
use Prim.Native.Char.{Char}
use text.Mathlib.Text.{◌==◌ as str_eq}
use cryptomeria.Common.{ℕ, Bool, ◌||◌, Option, none, some, String, ◌==◌, if◌then◌else◌}
use cryptomeria.Text.{rsplit, replace_char, drop_chars}

-- `str::to_lowercase` and `str::to_uppercase`, mappings of all of Unicode.
pub record Casing : Type 0 where
  pub to_lowercase : String → String
  pub to_uppercase : String → String

abbrev pub at_sign : Char
at_sign = "@"

abbrev pub slash : Char
slash = "/"

abbrev pub map_exchange_to_id : String → String
map_exchange_to_id exchange = exchange

abbrev pub overridden : String → Option (String × String) → String × Option String
overridden s none = (s, none)
overridden s (some (symbol, exchange)) = (symbol, some exchange)

unfoldable pub parse_exchange_override : String → String × Option String
parse_exchange_override s = overridden s (rsplit b'@' s)

unfoldable pub format_instrument : Casing → String → String → String
format_instrument casing symbol exchange =
    if str_eq exchange "kraken"
    then replace_char b'-' slash (casing.to_uppercase symbol)
    else if str_eq exchange "bitstamp"
    then casing.to_lowercase symbol
    else casing.to_uppercase symbol

abbrev pub is_separator : ℕ → Bool
is_separator k = (k == b'/') || (k == b'-')

-- `symbol.to_lowercase().replace(['/', '-'], "")`
unfoldable pub cli_id : Casing → String → String
cli_id casing symbol = drop_chars is_separator (casing.to_lowercase symbol)
