-- ===== src/Instruments/Aliases.antt =====
-- rs/src/instrument_aliases.rs: the pairs that each exchange lists.
use cryptomeria.Common.{List, [], ◌∷◌, String}

-- base, target and exchange
pub record Alias : Type 0 where
  pub base : String
  pub target : String
  pub exchange : String

abbrev alias : String → String → String → Alias
alias base target exchange = record { base = base; target = target; exchange = exchange }

abbrev pub coin_aliases : List Alias
coin_aliases =
    alias "BTC" "EUR" "okx"
    ∷ alias "ETH" "EUR" "okx"
    ∷ alias "SOL" "EUR" "okx"
    ∷ alias "LTC" "EUR" "okx"
    ∷ alias "XLM" "EUR" "okx"
    ∷ alias "ADA" "EUR" "okx"
    ∷ alias "DOGE" "EUR" "okx"
    ∷ alias "BTC" "USDT" "okx"
    ∷ alias "BTC" "USDC" "okx"
    ∷ alias "ETH" "USDT" "okx"
    ∷ alias "ETH" "USD" "okx"
    ∷ alias "SOL" "USDT" "okx"
    ∷ alias "SOL" "USD" "okx"
    ∷ alias "LTC" "USDT" "okx"
    ∷ alias "XLM" "USDT" "okx"
    ∷ alias "ADA" "USDT" "okx"
    ∷ alias "ADA" "USD" "okx"
    ∷ alias "DOGE" "USDT" "okx"
    ∷ alias "DOGE" "USDC" "okx"
    ∷ alias "XBT" "USD" "kraken"
    ∷ alias "XBT" "EUR" "kraken"
    ∷ alias "XBT" "USDC" "kraken"
    ∷ alias "ETH" "USD" "kraken"
    ∷ alias "ETH" "EUR" "kraken"
    ∷ alias "SOL" "USD" "kraken"
    ∷ alias "SOL" "EUR" "kraken"
    ∷ alias "LTC" "USD" "kraken"
    ∷ alias "LTC" "EUR" "kraken"
    ∷ alias "LTC" "GBP" "kraken"
    ∷ alias "LTC" "USDT" "kraken"
    ∷ alias "XLM" "USD" "kraken"
    ∷ alias "XLM" "EUR" "kraken"
    ∷ alias "ADA" "USD" "kraken"
    ∷ alias "ADA" "EUR" "kraken"
    ∷ alias "ADA" "USDC" "kraken"
    ∷ alias "XDG" "USD" "kraken"
    ∷ alias "XDG" "USDT" "kraken"
    ∷ alias "XDG" "EUR" "kraken"
    ∷ alias "BTC" "USD" "bitstamp"
    ∷ alias "ETH" "USD" "bitstamp"
    ∷ alias "SOL" "USD" "bitstamp"
    ∷ alias "LTC" "USD" "bitstamp"
    ∷ alias "XLM" "USD" "bitstamp"
    ∷ alias "XLM" "EUR" "bitstamp"
    ∷ alias "ADA" "USD" "bitstamp"
    ∷ alias "ADA" "EUR" "bitstamp"
    ∷ alias "DOGE" "USD" "bitstamp"
    ∷ []
