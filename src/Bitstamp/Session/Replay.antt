-- ===== src/Bitstamp/Session/Replay.antt =====
-- What the buffered diffs and the snapshot come to.
use mathlib.Core.List.{append_assoc, append-nil}
use cryptomeria.Common.{
  ℕ, List, [], ◌∷◌, ◌++◌, Bool, true, false, ◌≤◌, Option, none, some, ◌≡◌, refl, arith, keep,
  Bool-cases, inl, inr, ◌∙◌,
}
use cryptomeria.Float.{Float, IsPreorder}
use cryptomeria.Traits.Filter.{LobFilter}
use cryptomeria.Bitstamp.Types.{
  BitstampWsMessage, OrderBookData, MessageType, message_type, l2_snapshot, l2_update,
  event_message, trade, unknown,
}
use cryptomeria.Bitstamp.Lob.{OrderBook}
use cryptomeria.Bitstamp.Invariant.{IsValid, process_msg-IsValid}
use cryptomeria.Bitstamp.Session.{
  Session, Serde, process, replay, stamp, is_newer_than, snapshot_msg, snapshot_stamp, reconcile,
  hold, fetch_if_due, live, on_message, is_confirmation, is_due,
}

keep-append {ℓ} :
    {A : Type ℓ} (test : A → Bool) (xs ys : List A)
    → keep test (xs ++ ys) ≡ keep test xs ++ keep test ys
keep-append test [] ys = refl
keep-append test (x ∷ xs) ys = elim (Bool-cases (test x)) [
  | inl e ↦ rw e (rw (keep-append test xs ys))
  | inr e ↦ rw e (keep-append test xs ys)
]

module _ {κ} {V : Type κ} where
  -- the message, if its type is that of an update
  abbrev held_type : MessageType → BitstampWsMessage V → List (BitstampWsMessage V)
  held_type l2_update msg = msg ∷ []
  held_type _ msg = []

  -- the updates among the messages, in order
  abbrev pub updates :
      List (BitstampWsMessage V × Option OrderBookData) → List (BitstampWsMessage V)
  updates [] = []
  updates ((msg, fetched) ∷ rest) = held_type (message_type msg) msg ++ updates rest

module _ {κ} {V : Type κ} (serde : Serde V) where
  stale_dropped :
      (ob : OrderBookData) (msg : BitstampWsMessage V) (us : ℕ)
      → stamp serde msg ≡ some us
      → us ≤ snapshot_stamp serde ob
      → is_newer_than (snapshot_stamp serde ob) (stamp serde msg) ≡ false
  stale_dropped ob msg us read old = rw read (ground arith)

module _ {ℓ κ} {F : Type ℓ} {V : Type κ} ⦃f : Float F⦄ (serde : Serde V)
    (filter : Option (LobFilter F)) where
  -- A buffered diff whose microtimestamp is not after that of the snapshot has no influence on the
  -- book, wherever it stands in the buffer.
  pub reconcile-stale :
      (book : OrderBook F) (before later : List (BitstampWsMessage V)) (msg : BitstampWsMessage V)
      (ob : OrderBookData) (us : ℕ)
      → stamp serde msg ≡ some us
      → us ≤ snapshot_stamp serde ob
      → reconcile serde filter book (before ++ (msg ∷ later)) ob
        ≡ reconcile serde filter book (before ++ later) ob
  unfolding reconcile
  reconcile-stale book before later msg ob us read old =
      let test =
        λ (m : BitstampWsMessage V). is_newer_than (snapshot_stamp serde ob) (stamp serde m) in
      rw (
        keep-append test before (msg ∷ later),
        keep-append test before later,
        stale_dropped serde ob msg us read old,
      )

  -- A run over the messages of a connection, each with what a fetch gives at that moment.
  unfoldable pub run_session :
      Session F V → List (BitstampWsMessage V × Option OrderBookData) → Session F V
  run_session s [] = s
  run_session s ((msg, fetched) ∷ rest) = run_session (on_message serde filter s msg fetched) rest

  waiting :
      (s : Session F V) (type : MessageType) (msg : BitstampWsMessage V)
      (fetched : Option OrderBookData)
      → (fetch_if_due serde filter (hold serde filter s type msg) fetched).snapshot_applied ≡ false
      → ((fetch_if_due serde filter (hold serde filter s type msg) fetched).order_book
          ≡ s.order_book)
        × ((fetch_if_due serde filter (hold serde filter s type msg) fetched).buffer
            ≡ s.buffer ++ held_type type msg)
  waiting s l2_update msg none h = ground arith
  waiting s l2_update msg (some ob) h = ground arith
  waiting s l2_snapshot msg none h = rw append-nil (ground arith)
  waiting s l2_snapshot msg (some ob) h = rw append-nil (ground arith)
  waiting s event_message msg none h = rw append-nil (ground arith)
  waiting s event_message msg (some ob) h = rw append-nil (ground arith)
  waiting s trade msg none h = rw append-nil (ground arith)
  waiting s trade msg (some ob) h = rw append-nil (ground arith)
  waiting s unknown msg none h = rw append-nil (ground arith)
  waiting s unknown msg (some ob) h = rw append-nil (ground arith)

  -- once the snapshot is applied, it stays so
  live-applied :
      (s : Session F V) (type : MessageType) (msg : BitstampWsMessage V)
      → (live serde filter s type msg).snapshot_applied ≡ s.snapshot_applied
  live-applied s l2_snapshot msg = refl
  live-applied s _ msg = refl

  run_session-applied :
      (s : Session F V) (msgs : List (BitstampWsMessage V × Option OrderBookData))
      → s.snapshot_applied ≡ true
      → (run_session s msgs).snapshot_applied ≡ true
  unfolding run_session on_message
  run_session-applied s [] h = h
  run_session-applied s ((msg, fetched) ∷ rest) h =
      run_session-applied (on_message serde filter s msg fetched) rest
        (simp h (live-applied s (message_type msg) msg ∙ h))

  on_message-waiting :
      (s : Session F V) (msg : BitstampWsMessage V) (fetched : Option OrderBookData)
      → (on_message serde filter s msg fetched).snapshot_applied ≡ false
      → ((on_message serde filter s msg fetched).order_book ≡ s.order_book)
        × ((on_message serde filter s msg fetched).buffer
            ≡ s.buffer ++ held_type (message_type msg) msg)
  unfolding on_message run_session
  on_message-waiting s msg fetched h = elim (Bool-cases s.snapshot_applied) [
    | inl e ↦ cc (run_session-applied s ((msg, fetched) ∷ []) e)
    | inr e ↦ simp e (waiting s (message_type msg) msg fetched (simp e at h))
  ]

  -- As long as the snapshot of a connection is not applied, the book stays as it was, and the buffer
  -- grows by the updates received, all of them and in their order.
  pub run_session-buffers :
      (s : Session F V) (msgs : List (BitstampWsMessage V × Option OrderBookData))
      → (run_session s msgs).snapshot_applied ≡ false
      → ((run_session s msgs).order_book ≡ s.order_book)
        × ((run_session s msgs).buffer ≡ s.buffer ++ updates msgs)
  unfolding run_session
  run_session-buffers s [] h = (refl, rw append-nil)
  run_session-buffers s ((msg, fetched) ∷ rest) h =
      let next = on_message serde filter s msg fetched in
      elim (Bool-cases next.snapshot_applied) [
        | inl done ↦ cc (run_session-applied next rest done)
        | inr yet ↦
            let (book, buffer) = run_session-buffers next rest h in
            let (book', buffer') = on_message-waiting s msg fetched yet in
            (
              book ∙ book',
              buffer
                  ∙ rw buffer'
                      (append_assoc s.buffer (held_type (message_type msg) msg) (updates rest)),
            )
      ]

module _ {ℓ κ} {F : Type ℓ} {V : Type κ} ⦃f : Float F⦄ (serde : Serde V)
    (filter : Option (LobFilter F)) (p : IsPreorder f.cmp) where
  replay-IsValid :
      (book : OrderBook F) (msgs : List (BitstampWsMessage V))
      → IsValid book
      → IsValid (replay serde filter book msgs)
  unfolding replay
  replay-IsValid book [] v = v
  replay-IsValid book (msg ∷ rest) v =
      replay-IsValid (process serde filter book msg) rest
        (process_msg-IsValid p serde.book_of serde.entry_of book msg filter v)

  fetch_if_due-IsValid :
      (s : Session F V) (fetched : Option OrderBookData)
      → IsValid s.order_book
      → IsValid (fetch_if_due serde filter s fetched).order_book
  unfolding reconcile
  fetch_if_due-IsValid s none v = elim (Bool-cases (is_due s)) [ inl e ↦ rw e v | inr e ↦ rw e v ]
  fetch_if_due-IsValid s (some ob) v = elim (Bool-cases (is_due s)) [
    | inl e ↦ rw e (
        replay-IsValid _ _ (
          process_msg-IsValid p serde.book_of serde.entry_of s.order_book (snapshot_msg serde ob)
            filter v))
    | inr e ↦ rw e v
  ]

  hold-IsValid :
      (s : Session F V) (type : MessageType) (msg : BitstampWsMessage V)
      → IsValid s.order_book
      → IsValid (hold serde filter s type msg).order_book
  hold-IsValid s event_message msg v = elim (Bool-cases (is_confirmation msg.event)) [
    | inl e ↦ rw e v
    | inr e ↦ rw e v
  ]
  hold-IsValid s _ msg v = v

  live-IsValid :
      (s : Session F V) (type : MessageType) (msg : BitstampWsMessage V)
      → IsValid s.order_book
      → IsValid (live serde filter s type msg).order_book
  live-IsValid s l2_snapshot msg v =
      process_msg-IsValid p serde.book_of serde.entry_of s.order_book msg filter v
  live-IsValid s l2_update msg v =
      process_msg-IsValid p serde.book_of serde.entry_of s.order_book msg filter v
  live-IsValid s _ msg v = v

  pub on_message-IsValid :
      (s : Session F V) (msg : BitstampWsMessage V) (fetched : Option OrderBookData)
      → IsValid s.order_book
      → IsValid (on_message serde filter s msg fetched).order_book
  unfolding on_message
  on_message-IsValid s msg fetched v = elim (Bool-cases s.snapshot_applied) [
    | inl e ↦ simp e (live-IsValid s (message_type msg) msg v)
    | inr e ↦ simp e (
        fetch_if_due-IsValid (hold serde filter s (message_type msg) msg) fetched
          (hold-IsValid s (message_type msg) msg v))
  ]

  -- If the prices are totally preordered, the book of a connection is valid after any messages,
  -- whenever they come and whatever the fetch of the snapshot gives.
  pub run_session-IsValid :
      (s : Session F V) (msgs : List (BitstampWsMessage V × Option OrderBookData))
      → IsValid s.order_book
      → IsValid (run_session serde filter s msgs).order_book
  unfolding run_session
  run_session-IsValid s [] v = v
  run_session-IsValid s ((msg, fetched) ∷ rest) v =
      run_session-IsValid (on_message serde filter s msg fetched) rest
        (on_message-IsValid s msg fetched v)
