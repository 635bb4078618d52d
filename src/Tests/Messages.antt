-- ===== src/Tests/Messages.antt =====
-- A message of Kraken with levels.
use cryptomeria.Common.{ℕ, [], ◌∷◌, Option, none, some, ◌≡◌, refl}
use cryptomeria.Common.Int.{pos}
use cryptomeria.Kraken.Types.{KrakenWsMessage, LobData, lob_levels, lob_snapshot, lob_update}

abbrev read_data : ℕ → Option (LobData ℕ)
read_data n = some (record {
  symbol = "BTC/USD";
  bids = record { price = n; qty = 2 } ∷ [];
  asks = record { price = n; qty = 3 } ∷ [];
  checksum = pos 0;
  timestamp = "";
})

abbrev update_msg : KrakenWsMessage ℕ
update_msg = record {
  channel = some "book";
  msg_type = some "update";
  items = 7 ∷ 8 ∷ [];
  method = none;
  success = none;
  error = none;
}

update_levels :
    lob_levels read_data update_msg
    ≡ ("bid", record { price = 7; qty = 2 }) ∷ ("ask", record { price = 7; qty = 3 }) ∷ []
unfolding lob_levels lob_snapshot lob_update
update_levels = refl
