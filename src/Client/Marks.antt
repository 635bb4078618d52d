-- ===== src/Client/Marks.antt =====
-- What the status of a client says of its connection, and which operations change it.
use cryptomeria.Common.{
  ℕ, Bool, true, false, Option, none, some, String, ◌≡◌, refl, ap, ◌∙◌, arith, if◌then◌else◌,
}
use cryptomeria.Dict.{get-insert, text_key, map_value}
use cryptomeria.Float.{Float}
use cryptomeria.Metrics.{BookView}
use cryptomeria.Status.{
  ClientStatus, StatusMap, update_status_active, with_handle, status_key, with_price, with_sizes,
}
use cryptomeria.Status.Isolation.{same_key, status_at}
use cryptomeria.Okx.Types.{is_present}
use cryptomeria.Client.{
  Client, Clock, Numerals, TradeRate, set_active, on_status, key_of, set_last_price, show_book,
  on_trade,
}
use cryptomeria.Client.Settings.{Settings, settings}
use cryptomeria.Client.Status.{
  status_of, status_of-set_last_price, status_of-show_book, status_of-on_trade,
}

-- What a status says of the connection: the flag `active` and the detail.
abbrev pub marks {ℓ} : {F : Type ℓ} → Option (ClientStatus F) → Option (Bool × String)
marks none = none
marks (some status) = some (status.active, status.detail)

abbrev pub marks_of {ℓ κ} : {F : Type ℓ} {S : Type κ} → String → Client F S → Option (Bool × String)
marks_of key client = marks (status_of key client)

abbrev pub own_key {ℓ} : {F : Type ℓ} → Settings F → String
own_key s = status_key s.cli_instrument s.exchange

module _ {ℓ κ} {F : Type ℓ} {S : Type κ} ⦃f : Float F⦄ where
  pub settings-set_active :
      (now : ℕ) (active : Bool) (detail : String) (client : Client F S)
      → settings (set_active now active detail client) ≡ settings client
  unfolding set_active on_status
  settings-set_active now active detail client = refl

  -- A client with an entry in the status map says what it writes there.
  pub marks_of-set_active :
      (now : ℕ) (active : Bool) (detail : String) (client : Client F S)
      → is_present (marks_of (key_of client) client) ≡ true
      → marks_of (key_of client) (set_active now active detail client) ≡ some (active, detail)
  unfolding set_active on_status update_status_active
  marks_of-set_active now active detail client h = go client.status_handle h
    where
      go :
          (handle : Option (StatusMap F))
          → is_present (marks (status_at (key_of client) handle)) ≡ true
          → marks (
              status_at
                (key_of client)
                (with_handle (update_status_active (key_of client) now active detail) handle))
            ≡ some (active, detail)
      go none h = ground arith
      go (some map) h =
          rw (get-insert (key_of client) (key_of client) _ map) (rw (same_key (key_of client)) refl)

marks-map_value {ℓ} :
    {F : Type ℓ} (b : Bool) (change : ClientStatus F → ClientStatus F)
    (found : Option (ClientStatus F))
    → ((status : ClientStatus F) → marks (some (change status)) ≡ marks (some status))
    → marks (if b then map_value change found else found) ≡ marks found
marks-map_value true change none same = refl
marks-map_value true change (some status) same = same status
marks-map_value false change found same = refl

module _ {ℓ κ} {F : Type ℓ} {S : Type κ} where
  pub marks_of-set_last_price :
      (key : String) (now : ℕ) (price : F) (client : Client F S)
      → marks_of key (set_last_price now price client) ≡ marks_of key client
  marks_of-set_last_price key now price client =
      ap marks (status_of-set_last_price key now price client)
      ∙ marks-map_value (text_key.same (key_of client) key) (with_price now price)
          (status_of key client) (λ status. refl)

  pub marks_of-show_book :
      (numerals : Numerals F) (key : String) (clock : Clock) (view : BookView F)
      (client : Client F S)
      → marks_of key (show_book numerals clock view client) ≡ marks_of key client
  marks_of-show_book numerals key clock view client =
      ap marks (status_of-show_book numerals key clock view client)
      ∙ marks-map_value (text_key.same (key_of client) key)
          (with_sizes clock.millis view.view_bid_size view.view_ask_size) (status_of key client)
          (λ status. refl)

  pub marks_of-on_trade :
      ⦃f : Float F⦄ (numerals : Numerals F) (key : String) (clock : Clock) (client : Client F S)
      (rate : TradeRate)
      → marks_of key (on_trade numerals clock (client, rate)).0 ≡ marks_of key client
  marks_of-on_trade numerals key clock client rate =
      ap marks (status_of-on_trade numerals key clock client rate)
