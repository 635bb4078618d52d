-- ===== src/Tests/Subscriptions.antt =====
-- The texts of the subscriptions, with a printer that keeps the order of the fields.
use Prim.Native.String.{◌++◌ as ◌⊕◌}
use cryptomeria.Common.{String, ◌≡◌, refl}
use cryptomeria.Json.{
  Literal, Items, Fields, json_text, array, object, no_item, item, no_field, field,
}
use cryptomeria.Okx
use cryptomeria.Kraken
use cryptomeria.Bitstamp

mutual
  print : Literal → String
  print (json_text s) = "'" ⊕ s ⊕ "'"
  print (array items) = "[" ⊕ print_items items ⊕ "]"
  print (object fields) = "{" ⊕ print_fields fields ⊕ "}"

  print_items : Items → String
  print_items no_item = ""
  print_items (item v rest) = print v ⊕ print_items rest

  print_fields : Fields → String
  print_fields no_field = ""
  print_fields (field name v no_field) = name ⊕ ":" ⊕ print v
  print_fields (field name v rest) = name ⊕ ":" ⊕ print v ⊕ "," ⊕ print_fields rest

books_of_okx :
    Okx.Channels.build_subscribe_msg print "books" "BTC-USDT"
    ≡ "{op:'subscribe',args:[{channel:'books',instId:'BTC-USDT'}]}"
unfolding Okx.Channels.build_subscribe_msg print print_items print_fields
books_of_okx = refl

trade_of_kraken :
    Kraken.Channels.build_subscribe_msg print "trade" "BTC/USD"
    ≡ "{method:'subscribe',params:{channel:'trade',symbol:['BTC/USD']}}"
unfolding Kraken.Channels.build_subscribe_msg print print_items print_fields
trade_of_kraken = refl

trades_of_bitstamp :
    Bitstamp.Channels.build_subscribe_msg print "live_trades_btcusd"
    ≡ "{event:'bts:subscribe',data:{channel:'live_trades_btcusd'}}"
unfolding Bitstamp.Channels.build_subscribe_msg print print_items print_fields
trades_of_bitstamp = refl
