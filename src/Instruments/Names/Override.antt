-- ===== src/Instruments/Names/Override.antt =====
-- Which texts carry an exchange.
use Prim.Native.String.{◌∷◌ as ◌then◌, ◌++◌ as ◌⊕◌}
use text.Mathlib.TextEquality.{Char-path}
use cryptomeria.Common.{false, some, String, Option-cases, ◌≡◌, ◌↔◌, inl, inr, ap}
use cryptomeria.Text.{contains_char, rsplit}
use cryptomeria.Text.Laws.{rsplit-append, rsplit-eq-some}
use cryptomeria.Instruments.Names.{at_sign, overridden, parse_exchange_override}

-- A text is read as a symbol with an exchange exactly if it is the symbol, `@` and the exchange, and
-- no `@` stands in the exchange.
pub parse_exchange_override_iff :
    (s symbol exchange : String)
    → (parse_exchange_override s ≡ (symbol, some exchange))
      ↔ ((s ≡ symbol ⊕ (at_sign then exchange)) × (contains_char b'@' exchange ≡ false))
unfolding parse_exchange_override
parse_exchange_override_iff s symbol exchange = (there, back)
  where
    there :
        overridden s (rsplit b'@' s) ≡ (symbol, some exchange)
        → (s ≡ symbol ⊕ (at_sign then exchange)) × (contains_char b'@' exchange ≡ false)
    there h = elim (Option-cases (rsplit b'@' s)) [
      | inl e ↦ cc (rw e at h)
      | inr ((a, b), e) ↦
          let both = rw e at h in
          let first : a ≡ symbol = cc both in
          let second : b ≡ exchange = cc both in
          let (c, same, whole, last) = rsplit-eq-some b'@' s e in
          (rw (← first, ← second, ← Char-path c at_sign same) whole, rw (← second) last)
    ]

    back :
        (s ≡ symbol ⊕ (at_sign then exchange)) × (contains_char b'@' exchange ≡ false)
        → overridden s (rsplit b'@' s) ≡ (symbol, some exchange)
    back (e, last) = rw e (ap (overridden _) (rsplit-append at_sign symbol exchange last))
