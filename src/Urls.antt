-- ===== src/Urls.antt =====
-- rs/src/urls.rs: the endpoints of the exchanges by region. An index of a HashMap that has no such key
-- panics, and is `none` here.
use cryptomeria.Common.{[], ◌∷◌, Option, String}
use cryptomeria.Dict.{Dict, get, text_key}
use cryptomeria.Json.{and_then}

abbrev pub EndpointDict : Type 0
EndpointDict = Dict String String

abbrev pub ExchangeDict : Type 0
ExchangeDict = Dict String EndpointDict

abbrev pub RegionDict : Type 0
RegionDict = Dict String ExchangeDict

abbrev pub endpoints : String → String → EndpointDict
endpoints websocket rest = ("websocket", websocket) ∷ ("rest", rest) ∷ []

abbrev pub exchange_url : RegionDict
exchange_url =
    (
      "global",
      ("okx", endpoints "wss://ws.okx.com:8443/ws/v5/public" "")
          ∷ ("kraken", endpoints "wss://ws.kraken.com/v2" "")
          ∷ ("bitstamp", endpoints "wss://ws.bitstamp.net" "https://www.bitstamp.net/api/v2")
          ∷ [],
    )
    ∷ (
      "europe",
      ("okx", endpoints "wss://wseea.okx.com:8443/ws/v5/public" "")
          ∷ ("kraken", endpoints "wss://ws.kraken.com/v2" "")
          ∷ ("bitstamp", endpoints "wss://ws.bitstamp.net" "https://www.bitstamp.net/api/v2")
          ∷ [],
    )
    ∷ []

abbrev pub endpoint : String → String → String → Option String
endpoint kind region exchange =
    and_then (get region exchange_url) (λ exchanges. and_then (get exchange exchanges) (get kind))

unfoldable pub websocket_url : String → String → Option String
websocket_url region exchange = endpoint "websocket" region exchange

unfoldable pub rest_url : String → String → Option String
rest_url region exchange = endpoint "rest" region exchange
