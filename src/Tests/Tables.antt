-- ===== src/Tests/Tables.antt =====
-- The table of instruments.
use cryptomeria.Common.{List, [], ◌∷◌, String, ◌≡◌, refl, inl, inr}
use cryptomeria.Text.{replace_char}
use cryptomeria.Instruments.Aliases.{Alias}
use cryptomeria.Instruments.Names.{Casing, format_instrument}
use cryptomeria.Instruments.Resolve.{resolve_pair}
use cryptomeria.Instruments.{eq_ignore_ascii_case}
use cryptomeria.Launch.Table.{column_of, group, push_entry, entered, check_fallback, exact}
use cryptomeria.Launch.Table.Agrees.{print_instrument_table-resolve_pair}

-- Every text of these tests is in capitals.
abbrev casing : Casing
casing = record { to_lowercase = λ s. s; to_uppercase = λ s. s }

abbrev alias : String → String → String → Alias
alias base target exchange = record { base = base; target = target; exchange = exchange }

abbrev aliases : List Alias
aliases =
    alias "BTC" "EUR" "okx"
    ∷ alias "ETH" "USDC" "okx"
    ∷ alias "XBT" "EUR" "kraken"
    ∷ alias "ETH" "USD" "kraken"
    ∷ []

-- The pair ETH/USD at OKX, which lists ETH/USDC.
print_instrument_table-resolve_pair_example :
    (column_of casing aliases "okx" ("ETH", "USD") (alias "ETH" "USD" "kraken" ∷ [])).val
    ≡ resolve_pair casing aliases "ETH-USD" "okx" "ETH" "USD"
unfolding group push_entry eq_ignore_ascii_case
print_instrument_table-resolve_pair_example =
    print_instrument_table-resolve_pair casing aliases "okx" "ETH" "USD"
      (alias "ETH" "USD" "kraken" ∷ []) (inr (inl refl)) refl

-- Kraken's XBT stands in the row of BTC with its own name, to which BTC is not resolved.
kraken_column :
    (column_of casing aliases "kraken"
      ("BTC", "EUR")
      (alias "BTC" "EUR" "okx" ∷ alias "XBT" "EUR" "kraken" ∷ []))
    ≡ record { val = "XBT/EUR"; note = "kraken uses XBT for BTC" }
unfolding column_of entered check_fallback exact eq_ignore_ascii_case format_instrument replace_char
kraken_column = refl
