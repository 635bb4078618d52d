-- ===== src/Okx/Channels.antt =====
-- The subscriptions that the client of rs/src/okx/ws.rs sends. `to_string` is serde_json's.
use cryptomeria.Common.{List, [], ◌∷◌, String}
use cryptomeria.Json.{Literal, json_text, array, object, no_item, item, no_field, field}

module _ (to_string : Literal → String) where
  unfoldable pub build_subscribe_msg : String → String → String
  build_subscribe_msg channel instrument =
      let arg =
        field "channel" (json_text channel) (field "instId" (json_text instrument) no_field) in
      to_string (
        object (
          field "op" (json_text "subscribe")
            (field "args" (array (item (object arg) no_item)) no_field)))

  -- in the order in which they are sent
  abbrev pub subscriptions : String → List String
  subscriptions instrument =
      build_subscribe_msg "books" instrument ∷ build_subscribe_msg "trades" instrument ∷ []
