-- ===== src/Launch/Table.antt =====
-- `print_instrument_table` of rs/src/main.rs: the rows that `--list-instruments` prints, one for each
-- pair of a base and a target. The layout of the table is the crate prettytable's.
pub mod Grouped
pub mod Agrees
use Prim.Native.String.{compare, ◌++◌ as ◌⊕◌}
use text.Mathlib.Text.{◌==◌ as str_eq}
use cryptomeria.Common.{
  ℕ, List, [], ◌∷◌, ◌++◌, Bool, ◌&&◌, ◌||◌, not, Option, none, some, String, map, keep, Ordering,
  lt, eq, gt, if◌then◌else◌,
}
use cryptomeria.Text.{is_empty_text, rsplit}
use cryptomeria.Text.Decimal.{join}
use cryptomeria.Migrate.{unwrap_or}
use cryptomeria.Instruments.{find_fallback_target, eq_ignore_ascii_case}
use cryptomeria.Instruments.Aliases.{Alias}
use cryptomeria.Instruments.Names.{Casing, format_instrument}

abbrev pub normalize_base : String → String
normalize_base base =
    if str_eq base "XBT" then "BTC" else if str_eq base "XDG" then "DOGE" else base

abbrev pub Pair : Type 0
Pair = String × String

abbrev pub compare_pairs : Pair → Pair → Ordering
compare_pairs (a, b) (c, d) = elim (compare a c) [ lt ↦ lt | gt ↦ gt | eq ↦ compare b d ]

-- the entries of a `BTreeMap`, in the order of their keys
abbrev pub Pairs : Type 0
Pairs = List (Pair × List Alias)

-- `entry(key).or_default().push(..)`
unfoldable pub push_entry : Pair → Alias → Pairs → Pairs
push_entry key a [] = (key, a ∷ []) ∷ []
push_entry key a ((k, entries) ∷ rest) =
    let later = push_entry key a rest in
    elim (compare_pairs key k) [
      | lt ↦ (key, a ∷ []) ∷ (k, entries) ∷ rest
      | eq ↦ (k, entries ++ (a ∷ [])) ∷ rest
      | gt ↦ (k, entries) ∷ later
    ]

abbrev pub pair_of : Alias → Pair
pair_of a = (normalize_base a.base, a.target)

unfoldable pub group : List Alias → Pairs → Pairs
group [] pairs = pairs
group (a ∷ rest) pairs = group rest (push_entry (pair_of a) a pairs)

-- What the table says of a pair at one exchange.
pub record Column : Type 0 where
  pub val : String
  pub note : String

abbrev pub not_supported : Column
not_supported = record { val = "not supported"; note = "" }

module _ (casing : Casing) (aliases : List Alias) where
  abbrev pub written : String → String → String → String
  written exchange base target = format_instrument casing (base ⊕ "-" ⊕ target) exchange

  -- OKX gets no note; the others say which base they use, one behind the other
  abbrev pub renamed : String → String → String → String → String
  renamed exchange base_norm base note =
      if str_eq base base_norm || str_eq exchange "okx"
      then note
      else let said = exchange ⊕ " uses " ⊕ base ⊕ " for " ⊕ base_norm in
        if is_empty_text note then said else note ⊕ "; " ⊕ said

  -- the loop over the entries of a pair, for one exchange
  unfoldable pub entered : String → String → List Alias → Column → Column
  entered exchange base_norm [] column = column
  entered exchange base_norm (a ∷ rest) column =
      if str_eq a.exchange exchange
      then entered exchange base_norm rest (record {
        val = written exchange a.base a.target;
        note = renamed exchange base_norm a.base column.note;
      })
      else entered exchange base_norm rest column

  abbrev pub is_of : String → String → Alias → Bool
  is_of exchange base_norm a =
      str_eq a.exchange exchange && str_eq (normalize_base a.base) base_norm

  abbrev pub targets_of : String → String → List String
  targets_of exchange base_norm = map (λ a. a.target) (keep (is_of exchange base_norm) aliases)

  -- the last alias of the base with the target, written for the exchange
  unfoldable pub exact : String → String → String → List Alias → Option String
  exact exchange base_norm desired [] = none
  exact exchange base_norm desired (a ∷ rest) =
      let later = exact exchange base_norm desired rest in
      if is_of exchange base_norm a && eq_ignore_ascii_case a.target desired
      then some (unwrap_or (written exchange a.base a.target) later)
      else later

  abbrev pub without_match : String → String → String → Option String → Column → Column
  without_match exchange base_norm desired (some fallback) column = record {
    val = written exchange base_norm fallback;
    note = desired ⊕ "->" ⊕ fallback ⊕ "&";
  }
  without_match exchange base_norm desired none column =
      if str_eq column.val "not supported"
      then record { val = written exchange base_norm desired; note = "raw format (not in aliases)" }
      else column

  abbrev pub with_match : String → String → String → Option String → Column → Column
  with_match exchange base_norm desired (some val) column = record column { val = val }
  with_match exchange base_norm desired none column =
      without_match exchange base_norm desired
        (find_fallback_target casing.to_uppercase desired (targets_of exchange base_norm)) column

  unfoldable pub check_fallback : String → String → String → Column → Column
  check_fallback exchange base_norm desired column =
      with_match exchange base_norm desired (exact exchange base_norm desired aliases) column

  unfoldable pub column_of : String → Pair → List Alias → Column
  column_of exchange (base_norm, target) entries =
      check_fallback exchange base_norm target (entered exchange base_norm entries not_supported)

  -- a note that ends in '&' loses it
  unfoldable pub without_mark : String → String
  without_mark note = elim (rsplit b'&' note) [
    | none ↦ note
    | some (before, after) ↦ if is_empty_text after then before else note
  ]

  abbrev pub named_note : String → Column → List String
  named_note name column =
      let note = without_mark column.note in if is_empty_text note then [] else (name ⊕ note) ∷ []

  -- One row: the pair, the three exchanges, and the notes.
  unfoldable pub row_of : Pair × List Alias → List String
  row_of ((base_norm, target), entries) =
      let okx = column_of "okx" (base_norm, target) entries in
      let kraken = column_of "kraken" (base_norm, target) entries in
      let bitstamp = column_of "bitstamp" (base_norm, target) entries in
      let notes =
        named_note "OKX: " okx
        ++ (named_note "KRAKEN: " kraken ++ named_note "BITSTAMP: " bitstamp) in
      (base_norm ⊕ "/" ⊕ target) ∷ okx.val ∷ kraken.val ∷ bitstamp.val ∷ join " | " notes ∷ []

  unfoldable pub print_instrument_table : List (List String)
  print_instrument_table =
      ("instrument" ∷ "okx" ∷ "kraken" ∷ "bitstamp" ∷ "notes" ∷ []) ∷ map row_of (group aliases [])
