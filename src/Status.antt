-- ===== src/Status.antt =====
-- `ClientStatus` of rs/src/traits/mod.rs, and how the three clients write it: the functions
-- update_status_active and update_last_price, and the second half of update_lob_metrics.
pub mod Isolation
use Prim.Native.String.{◌++◌ as ◌⊕◌}
use cryptomeria.Common.{ℕ, Bool, Option, none, some, String}
use cryptomeria.Dict.{Dict, insert, modify, text_key}
use cryptomeria.Float.{Float}

pub record ClientStatus {ℓ} (F : Type ℓ) : Type ℓ where
  pub active : Bool
  pub ts : ℕ
  pub last_price : Option F
  pub bid_size : F
  pub ask_size : F
  pub detail : String

-- The map behind a `StatusHandle`; a lock that is poisoned is left out, since no writer panics.
abbrev pub StatusMap {ℓ} : Type ℓ → Type ℓ
StatusMap F = Dict String (ClientStatus F)

-- `format!("{}@{}", cli_instrument, exchange)`
abbrev pub status_key : String → String → String
status_key cli_instrument exchange = cli_instrument ⊕ "@" ⊕ exchange

-- What a handle that may be missing does: nothing without one.
abbrev pub with_handle {ℓ} :
    {F : Type ℓ} → (StatusMap F → StatusMap F) → Option (StatusMap F) → Option (StatusMap F)
with_handle f none = none
with_handle f (some map) = some (f map)

module _ {ℓ} {F : Type ℓ} ⦃f : Float F⦄ where
  -- the entry with which `main` begins
  abbrev pub starting : ClientStatus F
  starting = record {
    active = Bool.false;
    ts = 0;
    last_price = none;
    bid_size = f.nought;
    ask_size = f.nought;
    detail = "starting";
  }

  abbrev pub fresh_status : ℕ → Bool → String → ClientStatus F
  fresh_status now active detail = record {
    active = active;
    ts = now;
    last_price = none;
    bid_size = f.nought;
    ask_size = f.nought;
    detail = detail;
  }

  unfoldable pub update_status_active : String → ℕ → Bool → String → StatusMap F → StatusMap F
  update_status_active key now active detail map = insert key (fresh_status now active detail) map

module _ {ℓ} {F : Type ℓ} where
  abbrev pub with_price : ℕ → F → ClientStatus F → ClientStatus F
  with_price now price status = record status { last_price = some price; ts = now }

  unfoldable pub update_last_price : String → ℕ → F → StatusMap F → StatusMap F
  update_last_price key now price map = modify key (with_price now price) map

  abbrev pub with_sizes : ℕ → F → F → ClientStatus F → ClientStatus F
  with_sizes now bids asks status = record status { bid_size = bids; ask_size = asks; ts = now }

  unfoldable pub update_sizes : String → ℕ → F → F → StatusMap F → StatusMap F
  update_sizes key now bids asks map = modify key (with_sizes now bids asks) map
