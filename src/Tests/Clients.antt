-- ===== src/Tests/Clients.antt =====
-- An OKX client that handles a snapshot, a trade and a trade without a price.
use text.Mathlib.Text.{◌==◌ as str_eq}
use cryptomeria.Common.{
  List, [], ◌∷◌, false, Option, none, some, String, ◌≡◌, refl, map, if◌then◌else◌,
}
use cryptomeria.Dict.{get, text_key}
use cryptomeria.Book.{new}
use cryptomeria.Float.Fixed.{Fixed, fixed_float}
use cryptomeria.Metrics.{LobMetrics}
use cryptomeria.Status.{StatusMap, starting}
use cryptomeria.Client.{
  Client, Clock, Numerals, new_client, with_sender, with_status_handle, with_cli_instrument,
  lob_filter,
}
use cryptomeria.Client.Status.{status_of}
use cryptomeria.Okx.Types.{OkxWsMessage, LobLevel, LobData, TradeData, message_type}
use cryptomeria.Okx.Client.{Serde, Link, on_message, on_messages}
use cryptomeria.Okx.Client.Books.{book_of_messages, on_messages-order_book}
use cryptomeria.Okx.Client.Reports.{on_messages-other_status}
use cryptomeria.Okx.Client.Prices.{last_price_of, settled, is_written, on_message-last_price}
use cryptomeria.Tests.Rows.{Kept, keeping}

pub data Value : Type 0 where
  plain : String → Value
  level : List String → Value
  levels : List (List String) → Value
  book_item : List (List String) → List (List String) → Value
  trade_item : TradeData → Value

abbrev get_of : Value → String → Option Value
get_of (book_item b a) key =
    if str_eq key "bids"
    then some (levels b)
    else if str_eq key "asks"
    then some (levels a)
    else none
get_of _ key = none

abbrev array_of : Value → Option (List Value)
array_of (levels ls) = some (map level ls)
array_of (level l) = some (map plain l)
array_of _ = none

abbrev str_of : Value → Option String
str_of (plain s) = some s
str_of _ = none

abbrev level_of : List String → LobLevel
level_of (p ∷ s ∷ rest) = record { price = p; size = s; count = "0"; orders = "1" }
level_of _ = record { price = ""; size = ""; count = ""; orders = "" }

abbrev lob_of : Value → Option LobData
lob_of (book_item b a) = some (record { bids = map level_of b; asks = map level_of a })
lob_of _ = none

abbrev trade_of : Value → Option TradeData
trade_of (trade_item t) = some t
trade_of _ = none

abbrev pub serde : Serde Fixed Value
serde = record {
  json = record { get = get_of; as_array = array_of; as_str = str_of; as_f64 = λ v. none };
  lob_of = lob_of;
  trade_of = trade_of;
  parse_u64 = λ s. none;
}

abbrev pub numerals : Numerals Fixed
numerals = record { of_count = λ n. some n; secs = λ n. some n; two_decimals = λ x. "100.00" }

abbrev pub at_noon : Clock
at_noon = record { millis = 12; instant = 5; restart = 6 }

abbrev pub no_gauges : LobMetrics Fixed
no_gauges = record {
  best_bid = [];
  best_ask = [];
  spread = [];
  last_update = [];
  trades_total = [];
  trades_per_second = some 0;
  lob_depth_bid = [];
  lob_depth_ask = [];
}

abbrev statuses : StatusMap Fixed
statuses = ("btcusdt@okx", starting) ∷ ("btcusdt@kraken", starting) ∷ []

abbrev pub client : Client Fixed Kept
client = with_status_handle statuses (
    with_cli_instrument "btcusdt"
      (with_sender [] (new_client "BTC-USDT" "okx" "global" (some 50_000) false "" no_gauges)))

abbrev link : Link Fixed Kept
link = record {
  client = client;
  order_book = new;
  rate = record { last_trade_count = 0; last_trade_time = 0 };
}

abbrev pub book_msg : OkxWsMessage Value
book_msg = record {
  arg = some (record { channel = "books"; inst_id = "BTC-USDT" });
  action = some "snapshot";
  items = book_item (("100" ∷ "1" ∷ []) ∷ []) (("101" ∷ "2" ∷ []) ∷ []) ∷ [];
  event = none;
}

abbrev trade_at : String → TradeData
trade_at px = record {
  inst_id = "BTC-USDT";
  trade_id = "t1";
  px = px;
  sz = "1";
  side = "buy";
  ts = "";
}

abbrev trade_msg : String → OkxWsMessage Value
trade_msg px = record {
  arg = some (record { channel = "trades"; inst_id = "BTC-USDT" });
  action = none;
  items = trade_item (trade_at px) ∷ [];
  event = none;
}

abbrev session : List (Clock × OkxWsMessage Value)
session = (at_noon, book_msg) ∷ (at_noon, trade_msg "100") ∷ (at_noon, trade_msg "") ∷ []

on_messages-order_book_example :
    (on_messages serde keeping numerals session link).order_book
    ≡ book_of_messages serde (lob_filter client) new session
on_messages-order_book_example = on_messages-order_book serde keeping numerals session link

on_messages-other_status_example :
    status_of "btcusdt@kraken" (on_messages serde keeping numerals session link).client
    ≡ some starting
unfolding get
on_messages-other_status_example =
    on_messages-other_status serde keeping numerals "btcusdt@kraken" session link refl

-- the row is written, and a price that does not parse becomes 0.0
on_message-last_price_example :
    last_price_of (on_message serde keeping numerals at_noon (trade_msg "") link).client
    ≡ some (settled (is_written serde keeping client (trade_msg "")) none none)
unfolding message_type get
on_message-last_price_example =
    on_message-last_price serde keeping numerals at_noon (trade_msg "") (trade_at "") link none refl
      refl refl
