-- ===== src/Connection/Recovery.antt =====
-- How a client goes on after failures: what its status says while it waits, and that it comes to read
-- again.
use cryptomeria.Common.{
  ◌+◌, ◌^◌, ◌≤◌, ◌<◌, arith, length, All, ℕ, List, [], ◌∷◌, Bool, true, Option, some, String, ◌≡◌,
  refl, sym, subst,
}
use cryptomeria.Float.{Float}
use cryptomeria.Traits.Backoff.Bounds.{backoff_delay_bounds}
use cryptomeria.Urls.{websocket_url}
use cryptomeria.Client.{Client}
use cryptomeria.Client.Settings.{Settings}
use cryptomeria.Client.Marks.{marks_of, own_key}
use cryptomeria.Connection.{
  Wait, Exchange, Machine, connecting, reading, Failure, refused, first_unsent, second_unsent,
  connect, fail, establish, failed, established, Reach, here, next, next_attempt,
}
use cryptomeria.Connection.Healthy.{Keeps, HasEntry, connect-Says, subscribe-Says, fail-HasEntry}

abbrev pub wait_of : Failure → Wait
wait_of (refused now wait) = wait
wait_of (first_unsent now wait) = wait
wait_of (second_unsent now later wait) = wait

module _ {ℓ κ μ ν} {F : Type ℓ} {S : Type κ} {M : Type μ} {B : Type ν} ⦃f : Float F⦄ where
  -- What the status says behind a failure of a client with the settings `s`; `n` counts the attempts.
  abbrev pub after_failure :
      Exchange F S M B → Settings F → String → Failure → Client F S → ℕ → Option (Bool × String)
  after_failure exchange s url (refused now i) client n =
      marks_of (own_key s) (exchange.on_refused now n client)
  after_failure exchange s url (first_unsent now i) client n =
      some (true, exchange.connected_detail url)
  after_failure exchange s url (second_unsent now later i) client n =
      some (true, exchange.subscribed_detail s)

  -- The state behind failures, and the waits that the client was given on the way.
  abbrev pub fail_all :
      (ℕ → String) → Exchange F S M B → String → List Failure → Machine F S B → Machine F S B
  fail_all show_u32 exchange url [] m = m
  fail_all show_u32 exchange url (why ∷ rest) m =
      fail_all show_u32 exchange url rest (fail show_u32 exchange url why m)

  abbrev pub delays :
      (ℕ → String) → Exchange F S M B → String → List Failure → Machine F S B → List ℕ
  delays show_u32 exchange url [] m = []
  delays show_u32 exchange url (why ∷ rest) m =
      let after = fail show_u32 exchange url why m in
      after.delay ∷ delays show_u32 exchange url rest after

module _ {ℓ κ μ ν π} {F : Type ℓ} {S : Type κ} {M : Type μ} {B : Type ν} ⦃f : Float F⦄
    (show_u32 : ℕ → String) (exchange : Exchange F S M B) (P : B → Type π)
    (keeps : Keeps exchange P) (s : Settings F) where
  -- While a client with an entry waits behind a failure, its status says what the last step before the
  -- failure wrote: behind a subscription that cannot be sent, that the client is active.
  pub fail-marks :
      (url : String) (why : Failure) (m : Machine F S B)
      → HasEntry s m.client
      → marks_of (own_key s) (fail show_u32 exchange url why m).client
        ≡ after_failure exchange s url why m.client (next_attempt m.attempt)
  unfolding fail
  fail-marks url (refused now i) m h = refl
  fail-marks url (first_unsent now i) m h = (connect-Says show_u32 exchange P keeps s url now m h).1
  fail-marks url (second_unsent now later i) m h =
      (subscribe-Says show_u32 exchange P keeps s later (connect show_u32 exchange url now m)
        (connect-Says show_u32 exchange P keeps s url now m h).0).1

  Reach-trans :
      {m n o : Machine F S B}
      → Reach show_u32 exchange m n
      → Reach show_u32 exchange n o
      → Reach show_u32 exchange m o
  Reach-trans r here = r
  Reach-trans r (next q st) = next (Reach-trans r q) st

  attempt-fail :
      (url : String) (why : Failure) (m : Machine F S B)
      → m.attempt + 1 < 2 ^ 31
      → (fail show_u32 exchange url why m).attempt ≤ m.attempt + 1
  unfolding fail
  attempt-fail url (refused now wait) m small = omega arith
  attempt-fail url (first_unsent now wait) m small = omega arith
  attempt-fail url (second_unsent now later wait) m small = omega arith

  delay-fail :
      (url : String) (why : Failure) (m : Machine F S B)
      → m.attempt < 2 ^ 31
      → (wait_of why).jitter < 1000
      → (1000 ≤ (fail show_u32 exchange url why m).delay)
        × ((fail show_u32 exchange url why m).delay < 61_000)
  unfolding fail
  delay-fail url (refused now wait) m small short =
      backoff_delay_bounds m.attempt wait.jitter small short
  delay-fail url (first_unsent now wait) m small short =
      backoff_delay_bounds 0 wait.jitter (omega arith) short
  delay-fail url (second_unsent now later wait) m small short =
      backoff_delay_bounds 0 wait.jitter (omega arith) short

  phase-fail :
      (url : String) (why : Failure) (m : Machine F S B)
      → (fail show_u32 exchange url why m).phase ≡ connecting
  unfolding fail
  phase-fail url (refused now i) m = refl
  phase-fail url (first_unsent now i) m = refl
  phase-fail url (second_unsent now later i) m = refl

  delays-bounds :
      (url : String) (fs : List Failure) (m : Machine F S B)
      → All (λ why. (wait_of why).jitter < 1000) fs
      → m.attempt + length fs < 2 ^ 31
      → All (λ d. (1000 ≤ d) × (d < 61_000)) (delays show_u32 exchange url fs m)
  delays-bounds url [] m short small = tt
  delays-bounds url (why ∷ rest) m (short, shorts) small =
      let most = attempt-fail url why m (omega arith) in
      (
        delay-fail url why m (omega arith) short,
        delays-bounds url rest (fail show_u32 exchange url why m) shorts (omega arith),
      )

  fail_all-Reach :
      (url : String) (fs : List Failure) (m : Machine F S B)
      → m.phase ≡ connecting
      → websocket_url s.region s.exchange ≡ some url
      → HasEntry s m.client
      → Reach show_u32 exchange m (fail_all show_u32 exchange url fs m)
        × ((fail_all show_u32 exchange url fs m).phase ≡ connecting)
        × HasEntry s (fail_all show_u32 exchange url fs m).client
  fail_all-Reach url [] m at listed h = (here, at, h)
  fail_all-Reach url (why ∷ rest) m at listed h =
      let after = fail show_u32 exchange url why m in
      let (r, at', h') =
        fail_all-Reach url rest after (phase-fail url why m) listed
          (fail-HasEntry show_u32 exchange P keeps s url why m h) in
      let known = subst (λ t. websocket_url t.region t.exchange ≡ some url) (sym h.0) listed in
      (Reach-trans (next here (failed url why at known)) r, at', h')

  -- For a client with an entry and a listed URL, and any failures, whichever of their waits are
  -- interrupted: as long as the attempts stay below 2^31 and each jitter below one second, the machine
  -- gives each wait at least one second and less than 61. Behind the failures it can reach a state in
  -- which it reads, with its count of attempts at 0 and its status active.
  pub recovers :
      (url : String) (now later instant : ℕ) (fs : List Failure) (m : Machine F S B)
      → m.phase ≡ connecting
      → websocket_url s.region s.exchange ≡ some url
      → HasEntry s m.client
      → All (λ why. (wait_of why).jitter < 1000) fs
      → m.attempt + length fs < 2 ^ 31
      → All (λ d. (1000 ≤ d) × (d < 61_000)) (delays show_u32 exchange url fs m)
        × Reach show_u32 exchange m (fail_all show_u32 exchange url fs m)
        × (n : Machine F S B) × Reach show_u32 exchange (fail_all show_u32 exchange url fs m) n
        × (n.phase ≡ reading (exchange.begin instant))
        × (n.attempt ≡ 0)
        × (marks_of (own_key s) n.client ≡ some (true, exchange.subscribed_detail s))
  unfolding establish
  recovers url now later instant fs m at listed h short small =
      let (r, at', h') = fail_all-Reach url fs m at listed h in
      let known = subst (λ t. websocket_url t.region t.exchange ≡ some url) (sym h'.0) listed in
      let waiting = fail_all show_u32 exchange url fs m in
      let (kept, said) =
        subscribe-Says show_u32 exchange P keeps s later (connect show_u32 exchange url now waiting)
          (connect-Says show_u32 exchange P keeps s url now waiting h').0 in
      (
        delays-bounds url fs m short small,
        r,
        establish show_u32 exchange url now later instant waiting,
        next here (established url now later instant at' known),
        refl,
        refl,
        said,
      )
