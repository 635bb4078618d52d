-- ===== src/Traits/Filter.antt =====
-- `LobFilter` of rs/src/traits/mod.rs: which price levels enter the order book.
use cryptomeria.Common.{
  ℕ, Bool, true, false, Option, none, some, if◌then◌else◌, ltb, ◌≡◌, ◌⊎◌, arith, ◌<◌, ◌↔◌,
}
use cryptomeria.Float.{Float, feq, fge, fle}

pub data LobFilter {ℓ} (F : Type ℓ) : Type ℓ where
  max_level_pct : F → LobFilter F
  max_level : ℕ → LobFilter F

module _ {ℓ} {F : Type ℓ} ⦃f : Float F⦄ where
  -- `best * (1.0 - pct / 100.0)` and `best * (1.0 + pct / 100.0)`
  abbrev pub bid_floor : F → F → F
  bid_floor pct best = f.mul best (f.sub f.one (f.div pct f.hundred))

  abbrev pub ask_ceiling : F → F → F
  ask_ceiling pct best = f.mul best (f.add f.one (f.div pct f.hundred))

  abbrev pub within_pct : F → Bool → Option F → F → Bool
  within_pct pct side_is_bid none price = true
  within_pct pct true (some best) price = fge price (bid_floor pct best)
  within_pct pct false (some best) price = fle price (ask_ceiling pct best)

  unfoldable pub should_include : LobFilter F → Option F → Option F → F → F → Bool → ℕ → Bool → Bool
  should_include (max_level_pct pct) best_bid best_ask price amount side_is_bid count price_exists =
      if feq amount f.nought
      then true
      else within_pct pct side_is_bid (if side_is_bid then best_bid else best_ask) price
  should_include (max_level max) best_bid best_ask price amount side_is_bid count price_exists =
      if feq amount f.nought then true else if price_exists then true else ltb count max

  -- Under a level count, a level passes if it is a removal or its price is known, and any other
  -- exactly while there is room.
  pub should_include-max_level :
      (max count : ℕ) (bb ba : Option F) (price amount : F) (is_bid known : Bool)
      → (should_include (max_level max) bb ba price amount is_bid count known ≡ true)
        ↔ ((feq amount f.nought ≡ true) ⊎ ((known ≡ true) ⊎ (count < max)))
  unfolding should_include
  should_include-max_level max count bb ba price amount is_bid known = ground arith
