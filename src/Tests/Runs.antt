-- ===== src/Tests/Runs.antt =====
-- An OKX client that connects, fails and reads.
use cryptomeria.Common.{
  ℕ, ◌≤◌, ◌<◌, All, List, [], ◌∷◌, true, false, some, String, ◌≡◌, refl, arith,
}
use cryptomeria.Dict.{get}
use cryptomeria.Float.Fixed.{Fixed, fixed_float, Fixed-IsLawful}
use cryptomeria.Book.{new}
use cryptomeria.Traits.Backoff.{backoff_delay, base_ms}
use cryptomeria.Urls.{websocket_url}
use cryptomeria.Client.{set_active, on_status}
use cryptomeria.Client.Settings.{settings}
use cryptomeria.Client.Marks.{marks_of}
use cryptomeria.Okx.Types.{OkxWsMessage}
use cryptomeria.Okx.Run.{Reading, okx}
use cryptomeria.Okx.Run.Healthy.{BookIsValid, okx-Keeps, Reach-okx}
use cryptomeria.Connection.{
  Wait, Exchange, Machine, reading, Failure, refused, first_unsent, second_unsent, start, fail,
  establish, receive, Reach, here, next, failed, established, received,
}
use cryptomeria.Connection.Healthy.{IsHealthy}
use cryptomeria.Connection.Recovery.{fail_all, delays, recovers, fail-marks}
use cryptomeria.Connection.Stops.{
  Event, text, other, closed, signal, is_stopped, read_all, read_all-is_stopped,
}
use cryptomeria.Tests.Rows.{Kept, keeping}
use cryptomeria.Tests.Clients.{client, at_noon, numerals, serde, book_msg, Value}

abbrev State : Type 0
State = Machine Fixed Kept (Reading Fixed)

abbrev pub show_u32 : ℕ → String
show_u32 n = "1"

abbrev exchange : Exchange Fixed Kept (OkxWsMessage Value) (Reading Fixed)
exchange = okx serde keeping numerals

abbrev url : String
url = "wss://ws.okx.com:8443/ws/v5/public"

abbrev fresh : Reading Fixed
fresh = record { order_book = new; rate = record { last_trade_count = 0; last_trade_time = 9 } }

abbrev cut_short : Wait
cut_short = record { jitter = 999; interrupted = true }

abbrev pub whole : Wait
whole = record { jitter = 250; interrupted = false }

-- The trades cannot be subscribed to, and a signal cuts the wait short.
abbrev half_subscribed : State
half_subscribed = fail show_u32 exchange url (second_unsent 1 2 cut_short) (start client)

abbrev reader : State
reader = establish show_u32 exchange url 3 4 9 half_subscribed

abbrev reader_with_book : State
reader_with_book = receive show_u32 exchange at_noon book_msg fresh reader

reader_with_book-Reach : Reach show_u32 exchange (start client) reader_with_book
unfolding fail establish websocket_url get set_active on_status
reader_with_book-Reach =
    next
      (next (next here (failed url (second_unsent 1 2 cut_short) refl refl))
        (established url 3 4 9 refl refl))
      (received at_noon book_msg fresh refl)

Reach-okx_example : IsHealthy exchange BookIsValid (settings client) reader_with_book
unfolding get
Reach-okx_example =
    Reach-okx Fixed-IsLawful serde keeping numerals show_u32 client reader_with_book refl
      reader_with_book-Reach

-- The status says "active" while the client waits behind a subscription that failed.
fail-marks_example :
    marks_of "btcusdt@okx" half_subscribed.client ≡ some (true, "subscribed to books BTC-USDT")
unfolding get
fail-marks_example =
    fail-marks show_u32 exchange BookIsValid (okx-Keeps Fixed-IsLawful serde keeping numerals)
      (settings client) url (second_unsent 1 2 cut_short) (start client) (refl, refl)

abbrev failures : List Failure
failures = refused 1 cut_short ∷ (first_unsent 2 whole ∷ [])

recovers_example :
    All (λ d. (1000 ≤ d) × (d < 61_000)) (delays show_u32 exchange url failures (start client))
    × Reach show_u32 exchange
        (start client)
        (fail_all show_u32 exchange url failures (start client))
    × (n : State) × Reach show_u32 exchange
        (fail_all show_u32 exchange url failures (start client))
        n
    × (n.phase ≡ reading fresh)
    × (n.attempt ≡ 0)
    × (marks_of "btcusdt@okx" n.client ≡ some (true, "subscribed to books BTC-USDT"))
unfolding websocket_url get
recovers_example =
    recovers show_u32 exchange BookIsValid (okx-Keeps Fixed-IsLawful serde keeping numerals)
      (settings client) url 3 4 9 failures (start client) refl refl (refl, refl)
      (omega arith, (omega arith, tt)) (omega arith)

-- the delays double while connections are refused, and start again behind a connection
doubled :
    delays show_u32 exchange url
      (refused 1 whole ∷ (refused 2 whole ∷ (refused 3 whole ∷ failures)))
      (start client)
    ≡ 1_250 ∷ 2_250 ∷ 4_250 ∷ 8_999 ∷ 1_250 ∷ []
unfolding fail backoff_delay base_ms
doubled = refl

abbrev quiet_reader : State
quiet_reader = establish show_u32 exchange url 3 4 9 (start client)

abbrev events : List (Event (OkxWsMessage Value))
events = text at_noon book_msg ∷ other ∷ signal ∷ closed 5 whole ∷ []

read_all-is_stopped_example :
    is_stopped (read_all show_u32 exchange events quiet_reader).phase ≡ true
unfolding establish
read_all-is_stopped_example =
    read_all-is_stopped show_u32 exchange events fresh quiet_reader refl refl
