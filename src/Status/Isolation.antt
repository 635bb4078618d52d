-- ===== src/Status/Isolation.antt =====
-- A client writes under its own key of the status map only, and what a write leaves there.
use cryptomeria.Common.{ℕ, true, Option, none, some, String, ◌≡◌, refl, if◌then◌else◌, arith}
use cryptomeria.Dict.{get, get-modify, text_key, map_value}
use cryptomeria.Json.{and_then}
use cryptomeria.Status.{
  StatusMap, ClientStatus, with_handle, update_last_price, update_sizes, with_price, with_sizes,
}

pub same_key : (key : String) → text_key.same key key ≡ true
same_key key = (text_key.same_iff key key).1 refl

module _ {ℓ} {F : Type ℓ} where
  -- What a reader of the handle finds under a key.
  abbrev pub status_at : String → Option (StatusMap F) → Option (ClientStatus F)
  status_at key handle = and_then handle (λ map. get key map)

  pub status_at-last_price :
      (key other : String) (now : ℕ) (price : F) (handle : Option (StatusMap F))
      → status_at other (with_handle (update_last_price key now price) handle) ≡ (
          if text_key.same key other
          then map_value (with_price now price) (status_at other handle)
          else status_at other handle)
  unfolding update_last_price
  status_at-last_price key other now price none = ground arith
  status_at-last_price key other now price (some map) = get-modify key other _ map

  pub status_at-sizes :
      (key other : String) (now : ℕ) (bids asks : F) (handle : Option (StatusMap F))
      → status_at other (with_handle (update_sizes key now bids asks) handle) ≡ (
          if text_key.same key other
          then map_value (with_sizes now bids asks) (status_at other handle)
          else status_at other handle)
  unfolding update_sizes
  status_at-sizes key other now bids asks none = ground arith
  status_at-sizes key other now bids asks (some map) = get-modify key other _ map
