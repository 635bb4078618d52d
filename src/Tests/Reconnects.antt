-- ===== src/Tests/Reconnects.antt =====
-- Kraken and Bitstamp clients that connect, are refused and read.
use Prim.Native.String.{[] as end, ◌∷◌ as ◌then◌}
use cryptomeria.Common.{[], ◌∷◌, true, false, Option, none, some, String, refl}
use cryptomeria.Dict.{get}
use cryptomeria.Float.Fixed.{Fixed, fixed_float, Fixed-IsLawful}
use cryptomeria.Book
use cryptomeria.Status.{StatusMap, starting}
use cryptomeria.Urls.{websocket_url}
use cryptomeria.Client.{
  Client, new_client, with_status_handle, with_cli_instrument, set_active, on_status,
}
use cryptomeria.Client.Settings.{settings}
use cryptomeria.Kraken.Types.{KrakenWsMessage, TradeData}
use cryptomeria.Kraken.Run.{Reading, kraken}
use cryptomeria.Kraken.Run.Healthy.{BookIsValid, Reach-kraken}
use cryptomeria.Bitstamp.Channels.{Letters}
use cryptomeria.Bitstamp.Types.{BitstampWsMessage, OrderBookData}
use cryptomeria.Bitstamp.Run.{Reading as BitstampReading, bitstamp, new_session}
use cryptomeria.Bitstamp.Run.Healthy.{BookIsValid as BitstampBookIsValid, Reach-bitstamp}
use cryptomeria.Connection.{
  Exchange, Machine, refused, start, fail, establish, receive, Reach, here, next, failed,
  established, received,
}
use cryptomeria.Connection.Healthy.{IsHealthy}
use cryptomeria.Tests.Rows.{Kept, keeping}
use cryptomeria.Tests.Clients.{at_noon, numerals, no_gauges}
use cryptomeria.Tests.Sessions
use cryptomeria.Tests.Sessions.{trade_msg, reading}
use cryptomeria.Tests.Orders.{Content, as_inserted, diff_msg}
use cryptomeria.Tests.Runs.{show_u32, whole}

abbrev statuses : StatusMap Fixed
statuses = ("btcusd@kraken", starting) ∷ ("btcusd@bitstamp", starting) ∷ []

abbrev client_of : String → Client Fixed Kept
client_of exchange = with_status_handle statuses (
    with_cli_instrument "btcusd"
      (new_client "BTC/USD" exchange "global" (some 50_000) false "" no_gauges))

abbrev kraken_exchange : Exchange Fixed Kept (KrakenWsMessage (TradeData Fixed)) (Reading Fixed)
kraken_exchange = kraken show_u32 Sessions.kraken keeping numerals

abbrev kraken_url : String
kraken_url = "wss://ws.kraken.com/v2"

abbrev kraken_fresh : Reading Fixed
kraken_fresh = record {
  order_book = Book.new;
  rate = record { last_trade_count = 0; last_trade_time = 9 };
}

-- refused once, then connected, then a message of two trades
abbrev kraken_refused : Machine Fixed Kept (Reading Fixed)
kraken_refused =
    fail show_u32 kraken_exchange kraken_url (refused 1 whole) (start (client_of "kraken"))

abbrev kraken_reader : Machine Fixed Kept (Reading Fixed)
kraken_reader = establish show_u32 kraken_exchange kraken_url 3 4 9 kraken_refused

abbrev kraken_traded : Machine Fixed Kept (Reading Fixed)
kraken_traded = receive show_u32 kraken_exchange at_noon trade_msg kraken_fresh kraken_reader

kraken_traded-Reach : Reach show_u32 kraken_exchange (start (client_of "kraken")) kraken_traded
unfolding fail establish websocket_url get set_active on_status
kraken_traded-Reach =
    next
      (next (next here (failed kraken_url (refused 1 whole) refl refl))
        (established kraken_url 3 4 9 refl refl))
      (received at_noon trade_msg kraken_fresh refl)

Reach-kraken_example :
    IsHealthy kraken_exchange BookIsValid (settings (client_of "kraken")) kraken_traded
unfolding get
Reach-kraken_example =
    Reach-kraken Fixed-IsLawful show_u32 Sessions.kraken keeping numerals (client_of "kraken")
      kraken_traded refl kraken_traded-Reach

abbrev letters : Letters
letters = record { is_alphanumeric = λ c. true; to_lowercase = λ c. c then end }

abbrev message : BitstampWsMessage Content × Option OrderBookData
message = (diff_msg (("99", "1") ∷ []) "3", none)

abbrev bitstamp_exchange :
    Exchange Fixed Kept
      (BitstampWsMessage Content × Option OrderBookData)
      (BitstampReading Fixed Content)
bitstamp_exchange = bitstamp show_u32 letters 400 (λ instant. as_inserted) reading keeping numerals

abbrev bitstamp_url : String
bitstamp_url = "wss://ws.bitstamp.net"

abbrev bitstamp_fresh : BitstampReading Fixed Content
bitstamp_fresh = record {
  session = new_session as_inserted 400;
  rate = record { last_trade_count = 0; last_trade_time = 9 };
}

-- connected, then a diff, which is buffered
abbrev bitstamp_reader : Machine Fixed Kept (BitstampReading Fixed Content)
bitstamp_reader =
    establish show_u32 bitstamp_exchange bitstamp_url 3 4 9 (start (client_of "bitstamp"))

abbrev bitstamp_buffers : Machine Fixed Kept (BitstampReading Fixed Content)
bitstamp_buffers = receive show_u32 bitstamp_exchange at_noon message bitstamp_fresh bitstamp_reader

bitstamp_buffers-Reach :
    Reach show_u32 bitstamp_exchange (start (client_of "bitstamp")) bitstamp_buffers
unfolding establish websocket_url get
bitstamp_buffers-Reach =
    next (next here (established bitstamp_url 3 4 9 refl refl))
      (received at_noon message bitstamp_fresh refl)

Reach-bitstamp_example :
    IsHealthy bitstamp_exchange BitstampBookIsValid
      (settings (client_of "bitstamp"))
      bitstamp_buffers
unfolding get
Reach-bitstamp_example =
    Reach-bitstamp Fixed-IsLawful show_u32 letters 400 (λ instant. as_inserted) reading keeping
      numerals (client_of "bitstamp") bitstamp_buffers refl bitstamp_buffers-Reach
