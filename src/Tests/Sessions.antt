-- ===== src/Tests/Sessions.antt =====
-- Bitstamp and Kraken clients that handle a few messages.
use cryptomeria.Common.{[], ◌∷◌, none, some, String, ◌≡◌, ◌≢◌, refl, arith}
use cryptomeria.Dict.{get}
use cryptomeria.Book
use cryptomeria.Float.Fixed.{Fixed, fixed_float}
use cryptomeria.Client.{metrics}
use cryptomeria.Client.Counters.{trades_of}
use cryptomeria.Kraken.Types
use cryptomeria.Kraken.Types.{KrakenWsMessage, TradeData}
use cryptomeria.Kraken.Client
use cryptomeria.Kraken.Client.Trades.{on_messages-trades_of}
use cryptomeria.Bitstamp.Types.{BitstampWsMessage, message_type, trade}
use cryptomeria.Bitstamp.Client.{Reading, Link, on_message}
use cryptomeria.Bitstamp.Client.Unsent.{on_message-unsent}
use cryptomeria.Tests.Rows.{Kept, keeping}
use cryptomeria.Tests.Clients.{client, at_noon, numerals}
use cryptomeria.Tests.Orders.{Content, serde, fresh, diff_msg}

abbrev pub reading : Reading Fixed Content
reading = record {
  serde = serde;
  trade_of = λ d. none;
  times = record { thousand = some 10_000_000; to_u64 = λ x. 0; parse_u64 = λ s. none };
  show_u64 = λ n. "7";
}

abbrev link : Link Fixed Content Kept
link = record {
  client = client;
  session = fresh;
  rate = record { last_trade_count = 0; last_trade_time = 0 };
}

abbrev first_diff : BitstampWsMessage Content
first_diff = diff_msg (("99", "1") ∷ []) "3"

first_diff-trade : message_type first_diff ≢ trade
unfolding message_type
first_diff-trade h = ground (arith, h)

on_message-unsent_example :
    (on_message reading keeping numerals at_noon first_diff none link).client.sender ≡ some []
on_message-unsent_example =
    on_message-unsent reading keeping numerals at_noon first_diff none link refl first_diff-trade

abbrev pub kraken : Client.Serde Fixed (TradeData Fixed)
kraken = record {
  json = record { get = λ v k. none; as_array = λ v. none; as_str = λ v. none; as_f64 = λ v. none };
  lob_of = λ v. none;
  trade_of = λ v. some v;
  times = record { rfc3339_millis = λ s. none; thousand = some 10_000_000; to_u64 = λ x. 0 };
  eight_decimals = λ x. "1.00000000";
}

abbrev bought : String → TradeData Fixed
bought id = record {
  symbol = "BTC/USD";
  side = "buy";
  price = some 1_000_000;
  qty = some 10_000;
  trade_id = id;
  timestamp = "";
}

-- one message with two trades
abbrev pub trade_msg : KrakenWsMessage (TradeData Fixed)
trade_msg = record {
  channel = some "trade";
  msg_type = some "update";
  items = bought "1" ∷ bought "2" ∷ [];
  method = none;
  success = none;
  error = none;
}

abbrev kraken_link : Client.Link Fixed Kept
kraken_link = record {
  client = client;
  order_book = Book.new;
  rate = record { last_trade_count = 0; last_trade_time = 0 };
}

on_messages-trades_of_example :
    trades_of
      (Client.on_messages kraken numerals keeping ((at_noon, trade_msg) ∷ []) kraken_link).client
    ≡ 1
unfolding get Types.message_type metrics
on_messages-trades_of_example =
    on_messages-trades_of kraken numerals keeping ((at_noon, trade_msg) ∷ []) kraken_link
      (omega arith)
