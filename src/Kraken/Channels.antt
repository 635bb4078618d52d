-- ===== src/Kraken/Channels.antt =====
-- The subscriptions that the client of rs/src/kraken/ws.rs sends. `to_string` is serde_json's.
use cryptomeria.Common.{List, [], ◌∷◌, String}
use cryptomeria.Json.{Literal, json_text, array, object, no_item, item, no_field, field}

module _ (to_string : Literal → String) where
  unfoldable pub build_subscribe_msg : String → String → String
  build_subscribe_msg channel instrument =
      let params =
        field "channel" (json_text channel)
          (field "symbol" (array (item (json_text instrument) no_item)) no_field) in
      to_string
        (object (field "method" (json_text "subscribe") (field "params" (object params) no_field)))

  -- in the order in which they are sent
  abbrev pub subscriptions : String → List String
  subscriptions instrument =
      build_subscribe_msg "book" instrument ∷ build_subscribe_msg "trade" instrument ∷ []
