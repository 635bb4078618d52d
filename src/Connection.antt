-- ===== src/Connection.antt =====
-- `run` of the three clients (rs/src/okx/ws.rs, rs/src/kraken/ws.rs, rs/src/bitstamp/ws.rs) as a
-- state machine: what one iteration of its loops does to the client, its book and its status. The
-- environment decides which step is taken, when, and with which message.
use Prim.Native.String.{◌++◌ as ◌⊕◌}
use cryptomeria.Common.{ℕ, ◌+◌, ◌%◌, ◌^◌, Bool, true, false, some, String, ◌≡◌, if◌then◌else◌}
use cryptomeria.Float.{Float}
use cryptomeria.Traits.Backoff.{backoff_delay}
use cryptomeria.Urls.{websocket_url}
use cryptomeria.Client.{Client, Clock, set_active}
use cryptomeria.Client.Settings.{Settings, settings}
pub mod Healthy
pub mod Recovery
pub mod Stops

-- Where the exchanges differ: `B` is what the read loop keeps for one connection, `M` what a text
-- message brings with it.
pub record Exchange {ℓ κ μ ν} (F : Type ℓ) (S : Type κ) (M : Type μ) (B : Type ν)
    : Type (ℓ ⊔ κ ⊔ μ ⊔ ν) where
  -- what happens where the connection is refused: the time and the count of attempts
  pub on_refused : ℕ → ℕ → Client F S → Client F S
  -- the details for the status, of the URL and of the settings
  pub connected_detail : String → String
  pub subscribed_detail : Settings F → String
  -- `Instant::now()` goes in
  pub begin : ℕ → B
  pub handle : Clock → M → Client F S × B → Client F S × B

-- `connecting` is the head of the outer loop, `reading` that of the inner one.
pub data Phase {ν} (B : Type ν) : Type ν where
  connecting stopped : Phase B
  reading : B → Phase B

-- `attempt` is a u32, which wraps around in a release build; `delay` is what the last wait was given,
-- in milliseconds.
pub record Machine {ℓ κ ν} (F : Type ℓ) (S : Type κ) (B : Type ν) : Type (ℓ ⊔ κ ⊔ ν) where
  pub phase : Phase B
  pub attempt : ℕ
  pub delay : ℕ
  pub shutdown : Bool
  pub client : Client F S

-- The jitter that `backoff_delay` draws, and what `signal_sleep` returns.
pub record Wait : Type 0 where
  pub jitter : ℕ
  pub interrupted : Bool

-- How a connection can fail before it is read: it is refused, or the first or the second
-- subscription cannot be sent. Then comes a wait.
pub data Failure : Type 0 where
  refused : (now : ℕ) (wait : Wait) → Failure
  first_unsent : (now : ℕ) (wait : Wait) → Failure
  second_unsent : (now later : ℕ) (wait : Wait) → Failure

abbrev pub next_attempt : ℕ → ℕ
next_attempt attempt = (attempt + 1) % 2 ^ 32

module _ {ℓ κ ν} {F : Type ℓ} {S : Type κ} {B : Type ν} where
  abbrev pub start : Client F S → Machine F S B
  start client = record {
    phase = connecting;
    attempt = 0;
    delay = 0;
    shutdown = false;
    client = client;
  }

  -- `attempt += 1`, the wait by `backoff_delay(attempt - 1)`, and the next round of the outer loop
  abbrev pub back_off : Wait → Machine F S B → Machine F S B
  back_off wait m = record m {
    phase = connecting;
    attempt = next_attempt m.attempt;
    delay = backoff_delay m.attempt wait.jitter;
    shutdown = wait.interrupted;
  }

  abbrev pub stop : Machine F S B → Machine F S B
  stop m = record m { phase = stopped }

  -- the test of `shutdown` behind each turn of the inner loop, and the same test behind that loop
  abbrev pub continue_unless_shutdown : Machine F S B → Machine F S B
  continue_unless_shutdown m = if m.shutdown then stop m else m

module _ {ℓ κ μ ν} {F : Type ℓ} {S : Type κ} {M : Type μ} {B : Type ν} ⦃f : Float F⦄
    (show_u32 : ℕ → String) (exchange : Exchange F S M B) where
  abbrev pub connect : String → ℕ → Machine F S B → Machine F S B
  connect url now m = record m {
    attempt = 0;
    client = set_active now true (exchange.connected_detail url) m.client;
  }

  -- the first subscription is sent
  abbrev pub subscribe : ℕ → Machine F S B → Machine F S B
  subscribe now m = record m {
    client = set_active now true (exchange.subscribed_detail (settings m.client)) m.client;
  }

  unfoldable pub fail : String → Failure → Machine F S B → Machine F S B
  fail url (refused now wait) m =
      back_off wait
        (record m { client = exchange.on_refused now (next_attempt m.attempt) m.client })
  fail url (first_unsent now wait) m = back_off wait (connect url now m)
  fail url (second_unsent now later wait) m = back_off wait (subscribe later (connect url now m))

  -- Both subscriptions are sent, and reading begins.
  unfoldable pub establish : String → ℕ → ℕ → ℕ → Machine F S B → Machine F S B
  establish url now later instant m =
      let subscribed = subscribe later (connect url now m) in
      record subscribed { phase = reading (exchange.begin instant) }

  -- a text message that parses
  unfoldable pub receive : Clock → M → B → Machine F S B → Machine F S B
  receive clock msg b m =
      let (client, after) = exchange.handle clock msg (m.client, b) in
      continue_unless_shutdown (record m { phase = reading after; client = client })

  -- a frame without effect: a ping, pong or binary frame, or a text that does not parse (and whose log
  -- does not panic)
  unfoldable pub skip : Machine F S B → Machine F S B
  skip m = continue_unless_shutdown m

  -- the end of the stream: none, an error, or a close frame
  unfoldable pub lose : ℕ → Wait → Machine F S B → Machine F S B
  lose now wait m =
      let waiting = back_off wait m in
      let shown = record waiting {
        client =
            set_active now false ("disconnected, attempt " ⊕ show_u32 waiting.attempt) m.client;
      } in
      if m.shutdown then stop m else continue_unless_shutdown shown

  -- a signal while the client reads
  unfoldable pub interrupt : Machine F S B → Machine F S B
  interrupt m = record m { phase = stopped; shutdown = true }

  -- A URL that is not listed makes `websocket_url` panic: then there is no step.
  pub data Step (m : Machine F S B) : Machine F S B → Type (ℓ ⊔ κ ⊔ μ ⊔ ν) where
    failed :
        (url : String) (why : Failure)
        → m.phase ≡ connecting
        → websocket_url m.client.region m.client.exchange ≡ some url
        → Step m (fail url why m)
    established :
        (url : String) (now later instant : ℕ)
        → m.phase ≡ connecting
        → websocket_url m.client.region m.client.exchange ≡ some url
        → Step m (establish url now later instant m)
    received :
        (clock : Clock) (msg : M) (b : B) → m.phase ≡ reading b → Step m (receive clock msg b m)
    skipped : (b : B) → m.phase ≡ reading b → Step m (skip m)
    lost : (now : ℕ) (wait : Wait) (b : B) → m.phase ≡ reading b → Step m (lose now wait m)
    stopped_by_signal : (b : B) → m.phase ≡ reading b → Step m (interrupt m)

  pub data Reach (m : Machine F S B) : Machine F S B → Type (ℓ ⊔ κ ⊔ μ ⊔ ν) where
    here : Reach m m
    next : {n o : Machine F S B} → Reach m n → Step n o → Reach m o
