-- ===== src/Instruments/Fallback.antt =====
-- What a fallback is, and when there is one.
use cryptomeria.Common.{List, true, false, some, String, ◌≡◌, arith, ◌||◌, Bool-cases, inl, inr}
use cryptomeria.LevelMap.Lookup.{is_some}
use cryptomeria.Instruments.{has_target, is_dollar, fallback_arms, find_fallback_target}

module _ (to_uppercase : String → String) where
  arms-has_target :
      (requested : String) (available : List String) {t : String}
      → fallback_arms to_uppercase requested
          (has_target available "USDC")
          (has_target available "USDT")
          (has_target available "USD")
        ≡ some t
      → has_target available t ≡ true
  arms-has_target requested available h = ground arith

  -- A fallback is a target that the exchange trades, and there is one only if the exchange does not
  -- trade the requested target.
  pub find_fallback_target-available :
      (requested : String) (available : List String) {t : String}
      → find_fallback_target to_uppercase requested available ≡ some t
      → (has_target available t ≡ true) × (has_target available requested ≡ false)
  unfolding find_fallback_target
  find_fallback_target-available requested available h =
      elim (Bool-cases (has_target available requested)) [
        | inl here ↦ cc (rw here at h)
        | inr missing ↦ (arms-has_target requested available (rw missing at h), missing)
      ]

  -- If the requested target is, in capitals, one of the three dollar currencies and the exchange
  -- trades one of them but not the target itself, there is a fallback.
  pub find_fallback_target-dollar :
      (requested : String) (available : List String)
      → is_dollar (to_uppercase requested) ≡ true
      → has_target available requested ≡ false
      → (has_target available "USDC" || (has_target available "USDT" || has_target available "USD"))
        ≡ true
      → is_some (find_fallback_target to_uppercase requested available) ≡ true
  unfolding find_fallback_target
  find_fallback_target-dollar requested available dollar missing some_traded = ground arith
