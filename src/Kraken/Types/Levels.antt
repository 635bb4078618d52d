-- ===== src/Kraken/Types/Levels.antt =====
-- Which messages of Kraken carry levels.
use cryptomeria.Common.{List, [], Option, none, some, String, ◌≡◌, arith, first}
use cryptomeria.Json.{and_then}
use cryptomeria.Kraken.Types.{
  KrakenWsMessage, MessageType, l2_snapshot, l2_update, LobData, LobLevel, message_type, tagged,
  lob_levels, lob_snapshot, lob_update,
}

module _ {ℓ κ} {V : Type ℓ} {F : Type κ} (from_value : V → Option (LobData F)) where
  -- the levels of the first item of a message
  abbrev pub first_levels : KrakenWsMessage V → List (String × LobLevel F)
  first_levels msg = elim (and_then (first msg.items) from_value) [
    | some d ↦ tagged from_value d
    | none ↦ []
  ]

  abbrev pub levels_of_type : MessageType → KrakenWsMessage V → List (String × LobLevel F)
  levels_of_type l2_snapshot msg = first_levels msg
  levels_of_type l2_update msg = first_levels msg
  levels_of_type _ msg = []

  -- A message carries levels exactly by its type: a snapshot or an update of a book those of its
  -- first item, every other message none.
  pub lob_levels-message_type :
      (msg : KrakenWsMessage V) → lob_levels from_value msg ≡ levels_of_type (message_type msg) msg
  unfolding lob_levels lob_snapshot lob_update message_type
  lob_levels-message_type msg = ground arith
