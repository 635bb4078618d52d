-- ===== src/Instruments/Resolve.antt =====
-- `resolve_one_instrument` of rs/src/main.rs, and the resolution of the command line in `main`. What
-- is logged is left out.
pub mod Sound
use Prim.Native.String.{◌++◌ as ◌⊕◌}
use text.Mathlib.Text.{◌==◌ as str_eq}
use cryptomeria.Common.{
  ℕ, List, [], ◌∷◌, Bool, ◌&&◌, Option, none, some, String, map, keep, if◌then◌else◌,
}
use cryptomeria.Text.{contains_char, split}
use cryptomeria.Instruments.{find_fallback_target}
use cryptomeria.Instruments.Aliases.{Alias}
use cryptomeria.Instruments.Names.{
  Casing, map_exchange_to_id, parse_exchange_override, format_instrument, cli_id,
}
use cryptomeria.Instruments.Lists.{parse_instruments_list}

pub record ResolvedInstrument : Type 0 where
  pub symbol : String
  pub exchange : String
  pub cli_inst_id : String
  pub region : String

module _ (casing : Casing) (aliases : List Alias) where
  -- `exchange_override.unwrap_or(exchange).to_lowercase()`
  abbrev pub effective : Option String → String → String
  effective none exchange = casing.to_lowercase exchange
  effective (some override) exchange = casing.to_lowercase override

  abbrev pub listed : String → String → Alias → Bool
  listed json_id base a = str_eq a.exchange json_id && str_eq (casing.to_uppercase a.base) base

  abbrev pub available_targets : String → String → List String
  available_targets json_id base = map (λ a. a.target) (keep (listed json_id base) aliases)

  -- `iter().find(|t| t.to_uppercase() == target)`
  unfoldable pub find_target : String → List String → Option String
  find_target target [] = none
  find_target target (t ∷ ts) =
      if str_eq (casing.to_uppercase t) target then some t else find_target target ts

  abbrev pub pair_id : String → String → String → String
  pair_id exchange base target = format_instrument casing (base ⊕ "-" ⊕ target) exchange

  abbrev pub fall_back : String → String → String → Option String → String
  fall_back symbol exchange base none = format_instrument casing symbol exchange
  fall_back symbol exchange base (some fallback) = pair_id exchange base fallback

  abbrev pub choose : String → String → String → String → List String → Option String → String
  choose symbol exchange base target available none =
      fall_back symbol exchange base (find_fallback_target casing.to_uppercase target available)
  choose symbol exchange base target available (some found) = pair_id exchange base found

  abbrev pub resolve_pair : String → String → String → String → String
  resolve_pair symbol exchange base target =
      let available = available_targets (map_exchange_to_id exchange) base in
      choose symbol exchange base target available (find_target target available)

  -- a symbol of two parts is looked up, any other is only formatted
  abbrev pub resolve_parts : String → String → List String → String
  resolve_parts symbol exchange (b ∷ t ∷ []) =
      resolve_pair symbol exchange (casing.to_uppercase b) (casing.to_uppercase t)
  resolve_parts symbol exchange _ = format_instrument casing symbol exchange

  abbrev pub separator : String → ℕ
  separator symbol = if contains_char b'/' symbol then b'/' else b'-'

  -- the formatted instrument, the exchange and the name for the command line
  unfoldable pub resolve_one_instrument : String → String → String × String × String
  resolve_one_instrument instrument exchange =
      let (symbol, override) = parse_exchange_override instrument in
      let effective_exchange = effective override exchange in
      (
        resolve_parts symbol effective_exchange (split (separator symbol) symbol),
        effective_exchange,
        cli_id casing symbol,
      )

  abbrev pub resolved : String → String × String → ResolvedInstrument
  resolved region (instrument, exchange) =
      let (symbol, effective_exchange, cli_inst_id) = resolve_one_instrument instrument exchange in
      record {
        symbol = symbol;
        exchange = effective_exchange;
        cli_inst_id = cli_inst_id;
        region = region;
      }

  -- `main`: the option `--instruments` goes before `--instrument`
  unfoldable pub resolve_arguments :
      Option String → String → String → String → List ResolvedInstrument
  resolve_arguments (some instruments) instrument exchange region =
      map (resolved region) (parse_instruments_list instruments exchange)
  resolve_arguments none instrument exchange region =
      record (resolved region (instrument, exchange)) {
        cli_inst_id = cli_id casing (parse_exchange_override instrument).0;
      }
      ∷ []
