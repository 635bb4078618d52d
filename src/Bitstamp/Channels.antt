-- ===== src/Bitstamp/Channels.antt =====
-- The channels that the Bitstamp client of rs/src/bitstamp/ws.rs subscribes to, and the address of its
-- snapshot.
use Prim.Native.Char.{Char}
use Prim.Native.String.{[] as end, ◌∷◌ as ◌then◌, ◌++◌ as ◌⊕◌}
use text.Mathlib.TextLemmas.{nil-append, cons-append, append_assoc}
use cryptomeria.Common.{
  List, [], ◌∷◌, Bool, true, false, Option, none, some, String, ◌≡◌, ap, ◌∙◌, sym, if◌then◌else◌,
}
use cryptomeria.Json.{Literal, json_text, object, no_field, field}
use cryptomeria.Urls.{rest_url}

module _ (to_string : Literal → String) where
  -- `to_string` is serde_json's.
  unfoldable pub build_subscribe_msg : String → String
  build_subscribe_msg channel = to_string (
      object (
        field "event" (json_text "bts:subscribe")
          (field "data" (object (field "channel" (json_text channel) no_field)) no_field)))

-- `char::is_alphanumeric`, and `char::to_lowercase`, which can give several characters.
pub record Letters : Type 0 where
  pub is_alphanumeric : Char → Bool
  pub to_lowercase : Char → String

module _ (letters : Letters) where
  unfoldable pub instrument_to_channel : String → String
  instrument_to_channel end = end
  instrument_to_channel (c then s) =
      let rest = instrument_to_channel s in
      if letters.is_alphanumeric c then letters.to_lowercase c ⊕ rest else rest

  abbrev pub diff_channel : String → String
  diff_channel channel_instrument = "diff_order_book_" ⊕ channel_instrument

  abbrev pub trades_channel : String → String
  trades_channel channel_instrument = "live_trades_" ⊕ channel_instrument

  -- in the order in which they are sent
  abbrev pub subscriptions : (Literal → String) → String → List String
  subscriptions to_string channel_instrument =
      build_subscribe_msg to_string (diff_channel channel_instrument)
      ∷ build_subscribe_msg to_string (trades_channel channel_instrument)
      ∷ []

  -- `none` where the table of endpoints panics
  abbrev pub with_base : Option String → String → Option String
  with_base none channel_instrument = none
  with_base (some rest_base) channel_instrument =
      some (rest_base ⊕ "/order_book/" ⊕ channel_instrument ⊕ "/?group=1")

  unfoldable pub snapshot_url : String → String → String → Option String
  snapshot_url region exchange channel_instrument =
      with_base (rest_url region exchange) channel_instrument

  -- The channel of two parts is that of the one behind that of the other.
  pub instrument_to_channel-append :
      (s t : String)
      → instrument_to_channel (s ⊕ t) ≡ instrument_to_channel s ⊕ instrument_to_channel t
  unfolding instrument_to_channel
  instrument_to_channel-append end t =
      rw (nil-append t) (sym (nil-append (instrument_to_channel t)))
  instrument_to_channel-append (c then s) t =
      rw (cons-append c s t) (go (letters.is_alphanumeric c) (instrument_to_channel-append s t))
    where
      go :
          (b : Bool)
          → instrument_to_channel (s ⊕ t) ≡ instrument_to_channel s ⊕ instrument_to_channel t
          → (if b
              then letters.to_lowercase c ⊕ instrument_to_channel (s ⊕ t)
              else instrument_to_channel (s ⊕ t))
            ≡ (if b
                then letters.to_lowercase c ⊕ instrument_to_channel s
                else instrument_to_channel s)
              ⊕ instrument_to_channel t
      go true h =
          ap (λ r. letters.to_lowercase c ⊕ r) h
          ∙ sym (
              append_assoc (letters.to_lowercase c) (instrument_to_channel s)
                (instrument_to_channel t))
      go false h = h

  -- What stands between two parts of an instrument makes no difference, if it is no letter or digit.
  pub instrument_to_channel-separator :
      (s t : String) (c : Char)
      → letters.is_alphanumeric c ≡ false
      → instrument_to_channel (s ⊕ (c then t)) ≡ instrument_to_channel (s ⊕ t)
  unfolding instrument_to_channel
  instrument_to_channel-separator s t c h =
      instrument_to_channel-append s (c then t) ∙ rw h (sym (instrument_to_channel-append s t))
