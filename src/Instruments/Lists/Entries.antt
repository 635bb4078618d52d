-- ===== src/Instruments/Lists/Entries.antt =====
-- What a list of instruments means by the formats that the comment on `parse_instruments_list` gives.
use Prim.Native.Char.{Char}
use Prim.Native.String.{[] as end, ◌∷◌ as ◌then◌, ◌++◌ as ◌⊕◌}
use text.Mathlib.TextLemmas.{nil-append, cons-append}
use mathlib.Core.List.{append_assoc, append-nil}
use cryptomeria.Common.{
  List, [], ◌∷◌, ◌++◌, true, false, some, String, ◌≡◌, refl, sym, ap, ◌∙◌, map, All, if◌then◌else◌,
  inl, inr, Option-cases,
}
use cryptomeria.Text.{contains_char, rsplit, trim, is_empty_text}
use cryptomeria.Text.Laws.{join, split-join, rsplit-none, rsplit-append}
use cryptomeria.Instruments.Names.{at_sign}
use cryptomeria.Instruments.Lists.{
  Reading, start, last_pair, add, read_part, read_parts, parse_instruments_list,
}

abbrev pub comma : Char
comma = ","

-- "symbol@exchange", "@exchange" and "symbol"
pub data Entry : Type 0 where
  named : (symbol exchange : String) → Entry
  same : (exchange : String) → Entry
  plain : (symbol : String) → Entry

abbrev pub write : Entry → String
write (named symbol exchange) = symbol ⊕ (at_sign then exchange)
write (same exchange) = at_sign then exchange
write (plain symbol) = symbol

-- The pairs of a list of entries behind an entry with the symbol `last`.
abbrev pub meaning : String → String → List Entry → List (String × String)
meaning default last [] = []
meaning default last (named symbol exchange ∷ es) = (symbol, exchange) ∷ meaning default symbol es
meaning default last (same exchange ∷ es) = (last, exchange) ∷ meaning default last es
meaning default last (plain symbol ∷ es) = (symbol, default) ∷ meaning default symbol es

-- There is a symbol if one is wanted, and an `@` only where the format has it.
abbrev pub HasParts : Entry → Type 0
HasParts (named symbol exchange) =
    (is_empty_text symbol ≡ false) × (contains_char b'@' exchange ≡ false)
HasParts (same exchange) = contains_char b'@' exchange ≡ false
HasParts (plain symbol) = (is_empty_text symbol ≡ false) × (contains_char b'@' symbol ≡ false)

-- Besides, no comma stands in the text, and no white space round it.
abbrev pub IsClean : Entry → Type 0
IsClean e = HasParts e × (contains_char b',' (write e) ≡ false) × (trim (write e) ≡ write e)

is_empty_text-append : (s t : String) → is_empty_text s ≡ false → is_empty_text (s ⊕ t) ≡ false
is_empty_text-append end t h = cc
is_empty_text-append (c then s) t h = rw (cons-append c s t) refl

last_pair-append :
    (ps : List (String × String)) (p : String × String) → last_pair (ps ++ (p ∷ [])) ≡ some p
last_pair-append [] p = refl
last_pair-append (q ∷ []) p = refl
last_pair-append (q ∷ r ∷ ps) p = last_pair-append (r ∷ ps) p

module _ (default : String) where
  read_part-named :
      (r : Reading) (symbol exchange : String)
      → IsClean (named symbol exchange)
      → read_part default r (write (named symbol exchange))
        ≡ add (record r { has_implied = true }) symbol exchange
  unfolding read_part
  read_part-named r symbol exchange ((some_symbol, no_at), no_comma, trimmed) = rw trimmed (
      rw (is_empty_text-append symbol (at_sign then exchange) some_symbol)
        (rw (rsplit-append at_sign symbol exchange no_at) (rw some_symbol refl)))

  read_part-plain :
      (r : Reading) (symbol : String)
      → IsClean (plain symbol)
      → read_part default r symbol ≡ add r symbol default
  unfolding read_part
  read_part-plain r symbol ((some_symbol, no_at), no_comma, trimmed) =
      rw trimmed (rw some_symbol (rw (rsplit-none b'@' symbol no_at) refl))

  read_part-same :
      (r : Reading) (symbol old exchange : String)
      → IsClean (same exchange)
      → r.has_implied ≡ true
      → last_pair r.results ≡ some (symbol, old)
      → read_part default r (write (same exchange)) ≡ add r symbol exchange
  unfolding read_part
  read_part-same r symbol old exchange (no_at, no_comma, trimmed) implied last =
      let found =
        ap (rsplit b'@') (sym (nil-append (at_sign then exchange)))
        ∙ rsplit-append at_sign end exchange no_at in
      rw trimmed (rw found (rw last (simp implied)))

  read_parts-meaning :
      (es : List Entry) (r : Reading) (symbol old : String)
      → All IsClean es
      → r.has_implied ≡ true
      → last_pair r.results ≡ some (symbol, old)
      → (read_parts default r (map write es)).results ≡ r.results ++ meaning default symbol es
  unfolding read_parts
  read_parts-meaning [] r symbol old clean implied last = sym (append-nil r.results)
  read_parts-meaning (named s e ∷ es) r symbol old (c, cs) implied last =
      ap (λ q. (read_parts default q (map write es)).results) (read_part-named r s e c)
      ∙ read_parts-meaning es (add (record r { has_implied = true }) s e) s e cs refl
          (last_pair-append r.results (s, e))
      ∙ append_assoc r.results ((s, e) ∷ []) (meaning default s es)
  read_parts-meaning (same e ∷ es) r symbol old (c, cs) implied last =
      ap (λ q. (read_parts default q (map write es)).results)
        (read_part-same r symbol old e c implied last)
      ∙ read_parts-meaning es (add r symbol e) symbol e cs implied
          (last_pair-append r.results (symbol, e))
      ∙ append_assoc r.results ((symbol, e) ∷ []) (meaning default symbol es)
  read_parts-meaning (plain s ∷ es) r symbol old (c, cs) implied last =
      ap (λ q. (read_parts default q (map write es)).results) (read_part-plain r s c)
      ∙ read_parts-meaning es (add r s default) s default cs implied
          (last_pair-append r.results (s, default))
      ∙ append_assoc r.results ((s, default) ∷ []) (meaning default s es)

  All-map-write :
      (es : List Entry) → All IsClean es → All (λ t. contains_char b',' t ≡ false) (map write es)
  All-map-write [] h = tt
  All-map-write (e ∷ es) (h, hs) = (h.1, All-map-write es hs)

  -- A list that begins with a symbol and its exchange is read as it is meant: "@exchange" repeats the
  -- symbol of the entry before it, and a symbol alone goes to the default exchange.
  pub parse_instruments_list-join :
      (symbol exchange : String) (es : List Entry)
      → All IsClean (named symbol exchange ∷ es)
      → parse_instruments_list (join comma (map write (named symbol exchange ∷ es))) default
        ≡ (symbol, exchange) ∷ meaning default symbol es
  unfolding parse_instruments_list read_parts
  parse_instruments_list-join symbol exchange es (c, cs) =
      ap (λ ps. (read_parts default start ps).results)
        (split-join comma (write (named symbol exchange)) (map write es) c.1 (All-map-write es cs))
      ∙ ap (λ q. (read_parts default q (map write es)).results)
          (read_part-named start symbol exchange c)
      ∙ read_parts-meaning es (add (record start { has_implied = true }) symbol exchange) symbol
          exchange cs refl refl

  read_part-lost :
      (r : Reading) (exchange : String)
      → IsClean (same exchange)
      → r.has_implied ≡ false
      → read_part default r (write (same exchange)) ≡ r
  unfolding read_part
  read_part-lost r exchange (no_at, no_comma, trimmed) not_implied =
      let found =
        ap (rsplit b'@') (sym (nil-append (at_sign then exchange)))
        ∙ rsplit-append at_sign end exchange no_at in
      rw trimmed (
        rw found (elim (Option-cases (last_pair r.results)) [
          | inl e ↦ rw e refl
          | inr (p, e) ↦ rw e (simp not_implied)
        ]))

  -- The symbols alone among the entries.
  abbrev pub symbols_alone : List Entry → List (String × String)
  symbols_alone [] = []
  symbols_alone (named symbol exchange ∷ es) = symbols_alone es
  symbols_alone (same exchange ∷ es) = symbols_alone es
  symbols_alone (plain symbol ∷ es) = (symbol, default) ∷ symbols_alone es

  abbrev pub IsUnnamed : Entry → Type 0
  IsUnnamed (named symbol exchange) = ⊥
  IsUnnamed _ = Unit

  read_parts-unnamed :
      (es : List Entry) (r : Reading)
      → All IsClean es
      → All IsUnnamed es
      → r.has_implied ≡ false
      → (read_parts default r (map write es)).results ≡ r.results ++ symbols_alone es
  unfolding read_parts
  read_parts-unnamed [] r clean unnamed not_implied = sym (append-nil r.results)
  read_parts-unnamed (named s e ∷ es) r clean (impossible, us) not_implied = absurd impossible
  read_parts-unnamed (same e ∷ es) r (c, cs) (u, us) not_implied =
      ap (λ q. (read_parts default q (map write es)).results) (read_part-lost r e c not_implied)
      ∙ read_parts-unnamed es r cs us not_implied
  read_parts-unnamed (plain s ∷ es) r (c, cs) (u, us) not_implied =
      ap (λ q. (read_parts default q (map write es)).results) (read_part-plain r s c)
      ∙ read_parts-unnamed es (add r s default) cs us not_implied
      ∙ append_assoc r.results ((s, default) ∷ []) (symbols_alone es)

  -- As long as no entry has both a symbol and an exchange, each "@exchange" is dropped without a
  -- word, also behind a symbol.
  pub parse_instruments_list-unnamed :
      (e : Entry) (es : List Entry)
      → All IsClean (e ∷ es)
      → All IsUnnamed (e ∷ es)
      → parse_instruments_list (join comma (map write (e ∷ es))) default ≡ symbols_alone (e ∷ es)
  unfolding parse_instruments_list
  parse_instruments_list-unnamed e es (c, cs) unnamed =
      ap (λ ps. (read_parts default start ps).results)
        (split-join comma (write e) (map write es) c.1 (All-map-write es cs))
      ∙ read_parts-unnamed (e ∷ es) start (c, cs) unnamed refl
