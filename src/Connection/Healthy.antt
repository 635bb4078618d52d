-- ===== src/Connection/Healthy.antt =====
-- What holds in every state that the connection machine of a client reaches, from what its exchange
-- keeps.
use Prim.Native.String.{◌++◌ as ◌⊕◌}
use cryptomeria.Common.{
  ℕ, Bool, true, false, some, String, ◌≡◌, refl, ap, ◌∙◌, subst, Bool-cases, inl, inr,
}
use cryptomeria.Dict.{text_key}
use cryptomeria.Float.{Float}
use cryptomeria.Okx.Types.{is_present}
use cryptomeria.Client.{Client, Clock, set_active, key_of}
use cryptomeria.Client.Settings.{Settings, settings}
use cryptomeria.Client.Marks.{marks_of, own_key, settings-set_active, marks_of-set_active}
use cryptomeria.Connection.{
  Exchange, Machine, Phase, connecting, stopped, reading, Failure, refused, first_unsent,
  second_unsent, connect, subscribe, fail, establish, receive, skip, lose, interrupt, Step, failed,
  established, received, skipped, lost, stopped_by_signal, Reach, here, next, Wait,
  continue_unless_shutdown, back_off, next_attempt,
}

-- A client with the settings `s` and an entry of its own in the status map.
abbrev pub HasEntry {ℓ κ} : {F : Type ℓ} {S : Type κ} → Settings F → Client F S → Type ℓ
HasEntry s client = (settings client ≡ s) × (is_present (marks_of (own_key s) client) ≡ true)

-- What an exchange keeps: while it handles a message, a client keeps its settings and what its status
-- says of the connection, and the state of the connection keeps `P`.
pub record Keeps {ℓ κ μ ν π} {F : Type ℓ} {S : Type κ} {M : Type μ} {B : Type ν}
    (exchange : Exchange F S M B) (P : B → Type π) : Type (ℓ ⊔ κ ⊔ μ ⊔ ν ⊔ π) where
  pub begin_well : (instant : ℕ) → P (exchange.begin instant)
  pub handle_well :
      (clock : Clock) (msg : M) (client : Client F S) (b : B)
      → P b
      → P (exchange.handle clock msg (client, b)).1
  pub handle_settings :
      (clock : Clock) (msg : M) (client : Client F S) (b : B)
      → settings (exchange.handle clock msg (client, b)).0 ≡ settings client
  pub handle_marks :
      (key : String) (clock : Clock) (msg : M) (client : Client F S) (b : B)
      → marks_of key (exchange.handle clock msg (client, b)).0 ≡ marks_of key client
  pub refused_settings :
      (now n : ℕ) (client : Client F S)
      → settings (exchange.on_refused now n client) ≡ settings client
  pub refused_present :
      (now n : ℕ) (client : Client F S)
      → is_present (marks_of (key_of client) client) ≡ true
      → is_present (marks_of (key_of client) (exchange.on_refused now n client)) ≡ true

module _ {ℓ κ μ ν π} {F : Type ℓ} {S : Type κ} {M : Type μ} {B : Type ν} ⦃f : Float F⦄
    (exchange : Exchange F S M B) (P : B → Type π) (s : Settings F) where
  -- While the client reads, its count of attempts is 0, its status is active and says what it is
  -- subscribed to, and the state of the connection meets `P`.
  abbrev pub ReadsWell : Phase B → ℕ → Client F S → Type π
  ReadsWell connecting attempt client = Unit
  ReadsWell stopped attempt client = Unit
  ReadsWell (reading b) attempt client =
      (attempt ≡ 0)
      × (marks_of (own_key s) client ≡ some (true, exchange.subscribed_detail s))
      × P b

  abbrev pub IsHealthy : Machine F S B → Type (ℓ ⊔ π)
  IsHealthy m = HasEntry s m.client × ReadsWell m.phase m.attempt m.client

module _ {ℓ κ μ ν π} {F : Type ℓ} {S : Type κ} {M : Type μ} {B : Type ν} ⦃f : Float F⦄
    (show_u32 : ℕ → String) (exchange : Exchange F S M B) (P : B → Type π)
    (keeps : Keeps exchange P) (s : Settings F) where
  set_active-HasEntry :
      (now : ℕ) (active : Bool) (detail : String) (client : Client F S)
      → HasEntry s client
      → HasEntry s (set_active now active detail client)
        × (marks_of (own_key s) (set_active now active detail client) ≡ some (active, detail))
  set_active-HasEntry now active detail client (same, present) =
      let said =
        subst
          (λ key.
            is_present (marks_of key client) ≡ true
            → marks_of key (set_active now active detail client) ≡ some (active, detail))
          (ap own_key same) (marks_of-set_active now active detail client) present in
      ((settings-set_active now active detail client ∙ same, ap is_present said), said)

  pub connect-Says :
      (url : String) (now : ℕ) (m : Machine F S B)
      → HasEntry s m.client
      → HasEntry s (connect show_u32 exchange url now m).client
        × (marks_of (own_key s) (connect show_u32 exchange url now m).client
            ≡ some (true, exchange.connected_detail url))
  connect-Says url now m h = set_active-HasEntry now true (exchange.connected_detail url) m.client h

  pub subscribe-Says :
      (now : ℕ) (m : Machine F S B)
      → HasEntry s m.client
      → HasEntry s (subscribe show_u32 exchange now m).client
        × (marks_of (own_key s) (subscribe show_u32 exchange now m).client
            ≡ some (true, exchange.subscribed_detail s))
  subscribe-Says now m h =
      let detail = exchange.subscribed_detail (settings m.client) in
      let (kept, said) = set_active-HasEntry now true detail m.client h in
      (kept, said ∙ ap (λ t. some (true, exchange.subscribed_detail t)) h.0)

  pub fail-HasEntry :
      (url : String) (why : Failure) (m : Machine F S B)
      → HasEntry s m.client
      → HasEntry s (fail show_u32 exchange url why m).client
  unfolding fail
  fail-HasEntry url (refused now i) m (same, present) =
      let n = next_attempt m.attempt in
      let stays =
        subst
          (λ key.
            is_present (marks_of key m.client) ≡ true
            → is_present (marks_of key (exchange.on_refused now n m.client)) ≡ true)
          (ap own_key same) (keeps.refused_present now n m.client) in
      (keeps.refused_settings now n m.client ∙ same, stays present)
  fail-HasEntry url (first_unsent now i) m h = (connect-Says url now m h).0
  fail-HasEntry url (second_unsent now later i) m h =
      (subscribe-Says later (connect show_u32 exchange url now m) (connect-Says url now m h).0).0

  fail-IsHealthy :
      (url : String) (why : Failure) (m : Machine F S B)
      → IsHealthy exchange P s m
      → IsHealthy exchange P s (fail show_u32 exchange url why m)
  unfolding fail
  fail-IsHealthy url (refused now i) m (h, _) = (fail-HasEntry url (refused now i) m h, tt)
  fail-IsHealthy url (first_unsent now i) m (h, _) =
      (fail-HasEntry url (first_unsent now i) m h, tt)
  fail-IsHealthy url (second_unsent now later i) m (h, _) =
      (fail-HasEntry url (second_unsent now later i) m h, tt)

  pub establish-IsHealthy :
      (url : String) (now later instant : ℕ) (m : Machine F S B)
      → IsHealthy exchange P s m
      → IsHealthy exchange P s (establish show_u32 exchange url now later instant m)
  unfolding establish
  establish-IsHealthy url now later instant m (h, _) =
      let (kept, said) =
        subscribe-Says later (connect show_u32 exchange url now m) (connect-Says url now m h).0 in
      (kept, (refl, said, keeps.begin_well instant))

  continue-IsHealthy :
      (m : Machine F S B)
      → IsHealthy exchange P s m
      → IsHealthy exchange P s (continue_unless_shutdown m)
  continue-IsHealthy m h = elim (Bool-cases m.shutdown) [ inl e ↦ rw e (h.0, tt) | inr e ↦ rw e h ]

  lose-IsHealthy :
      (now : ℕ) (wait : Wait) (m : Machine F S B)
      → IsHealthy exchange P s m
      → IsHealthy exchange P s (lose show_u32 exchange now wait m)
  unfolding lose
  lose-IsHealthy now i m (h, r) =
      let waiting = back_off i m in
      let detail = "disconnected, attempt " ⊕ show_u32 waiting.attempt in
      let shown = record waiting { client = set_active now false detail m.client } in
      elim (Bool-cases m.shutdown) [
        | inl e ↦ rw e (h, tt)
        | inr e ↦
            rw e
              (continue-IsHealthy shown ((set_active-HasEntry now false detail m.client h).0, tt))
      ]

  receive-IsHealthy :
      (clock : Clock) (msg : M) (b : B) (m : Machine F S B)
      → m.phase ≡ reading b
      → IsHealthy exchange P s m
      → IsHealthy exchange P s (receive show_u32 exchange clock msg b m)
  unfolding receive
  receive-IsHealthy clock msg b m at ((same, present), h) =
      let (count, said, well) =
        subst (λ phase. ReadsWell exchange P s phase m.attempt m.client) at h in
      let kept = keeps.handle_marks (own_key s) clock msg m.client b in
      continue-IsHealthy _ (
        (keeps.handle_settings clock msg m.client b ∙ same, ap is_present kept ∙ present),
        (count, kept ∙ said, keeps.handle_well clock msg m.client b well),
      )

  Step-IsHealthy :
      {m n : Machine F S B}
      → Step show_u32 exchange m n
      → IsHealthy exchange P s m
      → IsHealthy exchange P s n
  unfolding skip interrupt
  Step-IsHealthy {m} (failed url why at listed) h = fail-IsHealthy url why m h
  Step-IsHealthy {m} (established url now later instant at listed) h =
      establish-IsHealthy url now later instant m h
  Step-IsHealthy {m} (received clock msg b at) h = receive-IsHealthy clock msg b m at h
  Step-IsHealthy {m} (skipped b at) h = continue-IsHealthy m h
  Step-IsHealthy {m} (lost now i b at) h = lose-IsHealthy now i m h
  Step-IsHealthy {m} (stopped_by_signal b at) h = (h.0, tt)

  pub Reach-IsHealthy :
      {m n : Machine F S B}
      → Reach show_u32 exchange m n
      → IsHealthy exchange P s m
      → IsHealthy exchange P s n
  Reach-IsHealthy here h = h
  Reach-IsHealthy (next r st) h = Step-IsHealthy st (Reach-IsHealthy r h)
