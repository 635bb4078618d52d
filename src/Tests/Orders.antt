-- ===== src/Tests/Orders.antt =====
-- The Bitstamp order book over fixed-point numbers, and the messages of one connection.
use text.Mathlib.Text.{◌==◌ as str_eq}
use mathlib.Core.List.Perm
use cryptomeria.Common.{
  ℕ, List, [], ◌∷◌, ◌++◌, false, Option, none, some, String, ◌≡◌, refl, arith, map, if◌then◌else◌,
}
use cryptomeria.Common.Int.{pos}
use cryptomeria.Float.{sum_from}
use cryptomeria.LevelMap.{insert}
use cryptomeria.Book.{update_entry, bid}
use cryptomeria.Float.Fixed.{Fixed, fixed_float, fixed_cmp-IsPreorder}
use cryptomeria.Traits.Filter.{max_level}
use cryptomeria.Bitstamp.Types.{
  BitstampWsMessage, OrderEntry, OrderBookData, message_type, microtimestamp_us,
}
use cryptomeria.Bitstamp.Lob.{
  Layout, OrderBook, with_snapshot_depth, apply_order, get_order, insert_order, rebuild_price_level,
}
use cryptomeria.Bitstamp.Messages.{process_msg}
use cryptomeria.Bitstamp.Invariant.{IsValid, apply_order-IsValid}
use cryptomeria.Bitstamp.Depth.{IsBounded, process_msg-IsBounded}
use cryptomeria.Bitstamp.Orders.{apply_order-IsAggregated, with_snapshot_depth-IsAggregated}
use cryptomeria.Bitstamp.Orders.Levels.{IsAggregated, Rearranges}
use cryptomeria.Bitstamp.Session.{Session, Serde, reconcile, on_message}
use cryptomeria.Bitstamp.Session.Replay.{
  updates, run_session, run_session-IsValid, run_session-buffers, reconcile-stale,
}

-- The JSON values that the samples need.
pub data Content : Type 0 where
  diff : OrderBookData → Content
  order : OrderEntry → Content

abbrev read_book : Content → Option OrderBookData
read_book (diff ob) = some ob
read_book (order e) = none

abbrev read_order : Content → Option OrderEntry
read_order (diff ob) = none
read_order (order e) = some e

abbrev read_stamp : String → Option ℕ
read_stamp text = if str_eq text "5" then some 5 else if str_eq text "3" then some 3 else none

abbrev pub serde : Serde Content
serde = record {
  book_of = read_book;
  entry_of = read_order;
  trade_stamp = λ d. none;
  to_value = diff;
  parse_u64 = read_stamp;
  orders_channel = "diff_order_book_btcusd";
}

abbrev book_data : List (String × String) → String → OrderBookData
book_data bids stamp = record {
  bids = bids;
  asks = ("102", "3") ∷ ("101", "1") ∷ [];
  timestamp = stamp;
  microtimestamp = stamp;
}

abbrev pub diff_msg : List (String × String) → String → BitstampWsMessage Content
diff_msg bids stamp = record {
  event = some "data";
  channel = some "diff_order_book_btcusd";
  content = some (diff (book_data bids stamp));
}

abbrev pub confirmation : BitstampWsMessage Content
confirmation = record {
  event = some "bts:subscription_succeeded";
  channel = some "diff_order_book_btcusd";
  content = none;
}

-- a map that iterates in the order of insertion, and one that swaps its first two entries then
abbrev pub as_inserted : Layout Fixed
as_inserted n entries = entries

abbrev swapping : Layout Fixed
swapping n (a ∷ b ∷ rest) = b ∷ a ∷ rest
swapping n entries = entries

swapping-Rearranges : Rearranges swapping
swapping-Rearranges n [] = Perm.rfl
swapping-Rearranges n (a ∷ []) = Perm.rfl
swapping-Rearranges n (a ∷ b ∷ rest) = Perm.swap a b rest

abbrev empty : OrderBook Fixed
empty = with_snapshot_depth as_inserted 400

abbrev swapping_empty : OrderBook Fixed
swapping_empty = with_snapshot_depth swapping 400

swapping_empty-IsValid : IsValid swapping_empty
unfolding with_snapshot_depth
swapping_empty-IsValid = record {
  bids_valid = record { ordered = tt; nonzero = tt };
  asks_valid = record { ordered = tt; nonzero = tt };
}

empty-IsValid : IsValid empty
unfolding with_snapshot_depth
empty-IsValid = record {
  bids_valid = record { ordered = tt; nonzero = tt };
  asks_valid = record { ordered = tt; nonzero = tt };
}

abbrev entry : OrderEntry
entry = record {
  id = 7;
  id_str = "7";
  price = "100";
  amount = "2";
  order_type = pos 0;
  timestamp = "5";
}

one_order : (apply_order empty entry).bids ≡ (some 1_000_000, some 20_000) ∷ []
unfolding apply_order rebuild_price_level with_snapshot_depth get_order update_entry sum_from
    insert_order insert
one_order = refl

abbrev other : OrderEntry
other = record entry { id = 8; id_str = "8"; amount = "1" }

-- a book whose map swaps its entries, with one order
abbrev swapped : OrderBook Fixed
swapped = record {
  orders = record {
    entries = (7, record { price = some 1_000_000; size = some 20_000; side = bid }) ∷ [];
    insertions = 1;
    layout = swapping;
  };
  bids = (some 1_000_000, some 20_000) ∷ [];
  asks = [];
  snapshot_depth = 400;
}

swapped_orders :
    (map (λ e. e.0) (apply_order swapped other).orders.entries ≡ 8 ∷ (7 ∷ []))
    × ((apply_order swapped other).bids ≡ (some 1_000_000, some 30_000) ∷ [])
unfolding apply_order rebuild_price_level get_order update_entry sum_from insert_order insert
swapped_orders = (refl, refl)

apply_order-IsAggregated_example :
    IsAggregated (apply_order (apply_order swapping_empty entry) other)
unfolding apply_order rebuild_price_level with_snapshot_depth get_order
apply_order-IsAggregated_example =
    apply_order-IsAggregated fixed_cmp-IsPreorder (apply_order swapping_empty entry) other
      swapping-Rearranges
      (apply_order-IsValid fixed_cmp-IsPreorder swapping_empty entry swapping_empty-IsValid)
      (apply_order-IsAggregated fixed_cmp-IsPreorder swapping_empty entry swapping-Rearranges
        swapping_empty-IsValid
        (with_snapshot_depth-IsAggregated fixed_cmp-IsPreorder swapping 400 refl))

empty-IsBounded : IsBounded 1 empty
unfolding with_snapshot_depth
empty-IsBounded = (omega arith, omega arith)

process_msg-IsBounded_example : IsBounded 1 (
    process_msg read_book read_order empty
      (diff_msg (("99", "1") ∷ ("100", "1") ∷ []) "5")
      (some (max_level 1)))
process_msg-IsBounded_example =
    process_msg-IsBounded fixed_cmp-IsPreorder read_book read_order 1 empty empty-IsValid
      empty-IsBounded (diff_msg (("99", "1") ∷ ("100", "1") ∷ []) "5") refl

abbrev pub fresh : Session Fixed Content
fresh = record {
  order_book = empty;
  buffer = [];
  subscription_confirmed = false;
  snapshot_attempted = false;
  snapshot_applied = false;
}

abbrev early : List (BitstampWsMessage Content × Option OrderBookData)
early = (diff_msg (("99", "1") ∷ []) "3", none) ∷ (diff_msg (("2", "0") ∷ []) "5", none) ∷ []

run_session-buffers_example :
    ((run_session serde none fresh early).order_book ≡ empty)
    × ((run_session serde none fresh early).buffer ≡ [] ++ updates early)
unfolding run_session on_message message_type
run_session-buffers_example = run_session-buffers serde none fresh early refl

abbrev pub session : List (BitstampWsMessage Content × Option OrderBookData)
session =
    (diff_msg (("99", "1") ∷ []) "3", none)
    ∷ (confirmation, some (book_data (("100", "1") ∷ []) "3"))
    ∷ (diff_msg (("2", "0") ∷ []) "5", none)
    ∷ []

run_session-IsValid_example : IsValid (run_session serde none fresh session).order_book
run_session-IsValid_example =
    run_session-IsValid serde none fixed_cmp-IsPreorder fresh session empty-IsValid

reconcile-stale_example :
    reconcile serde none empty
      ([] ++ (diff_msg (("99", "1") ∷ []) "3" ∷ diff_msg (("2", "0") ∷ []) "5" ∷ []))
      (book_data (("100", "1") ∷ []) "3")
    ≡ reconcile serde none empty
        ([] ++ (diff_msg (("2", "0") ∷ []) "5" ∷ []))
        (book_data (("100", "1") ∷ []) "3")
unfolding microtimestamp_us
reconcile-stale_example =
    reconcile-stale serde none empty [] (diff_msg (("2", "0") ∷ []) "5" ∷ [])
      (diff_msg (("99", "1") ∷ []) "3") (book_data (("100", "1") ∷ []) "3") 3 refl (omega arith)
