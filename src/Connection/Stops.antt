-- ===== src/Connection/Stops.antt =====
-- When a client that reads its stream ends.
use cryptomeria.Common.{
  ℕ, List, [], ◌∷◌, Bool, true, false, String, ◌≡◌, refl, ap, ◌∙◌, inl, inr, Bool-cases,
  if◌then◌else◌,
}
use cryptomeria.Float.{Float}
use cryptomeria.Client.{Clock}
use cryptomeria.Connection.{
  Wait, Exchange, Machine, Phase, connecting, stopped, reading, receive, skip, lose, interrupt,
}

-- What one turn of the inner `select!` meets.
pub data Event {μ} (M : Type μ) : Type μ where
  text : Clock → M → Event M
  other : Event M
  closed : (now : ℕ) (wait : Wait) → Event M
  signal : Event M

-- Where a list of events takes a client that reads, in words: it stops if a signal comes before the
-- end of the stream, or during the wait behind it.
abbrev pub is_stopped {ν} : {B : Type ν} → Phase B → Bool
is_stopped stopped = true
is_stopped _ = false

abbrev pub is_signalled {μ} : {M : Type μ} → List (Event M) → Bool
is_signalled [] = false
is_signalled (text clock msg ∷ rest) = is_signalled rest
is_signalled (other ∷ rest) = is_signalled rest
is_signalled (closed now wait ∷ rest) = wait.interrupted
is_signalled (signal ∷ rest) = true

module _ {ℓ κ μ ν} {F : Type ℓ} {S : Type κ} {M : Type μ} {B : Type ν} ⦃f : Float F⦄
    (show_u32 : ℕ → String) (exchange : Exchange F S M B) where
  abbrev pub on_event : Phase B → Event M → Machine F S B → Machine F S B
  on_event connecting e m = m
  on_event stopped e m = m
  on_event (reading b) (text clock msg) m = receive show_u32 exchange clock msg b m
  on_event (reading b) other m = skip show_u32 exchange m
  on_event (reading b) (closed now wait) m = lose show_u32 exchange now wait m
  on_event (reading b) signal m = interrupt show_u32 exchange m

  -- The inner loop, and what follows it up to the next connection: the events behind its end are not
  -- read.
  unfoldable pub read_all : List (Event M) → Machine F S B → Machine F S B
  read_all [] m = m
  read_all (e ∷ rest) m = read_all rest (on_event m.phase e m)

  read_all_step :
      (e : Event M) (rest : List (Event M)) (m : Machine F S B) (phase : Phase B)
      → m.phase ≡ phase
      → read_all (e ∷ rest) m ≡ read_all rest (on_event phase e m)
  unfolding read_all
  read_all_step e rest m phase at = ap (λ p. read_all rest (on_event p e m)) at

  read_all-connecting :
      (events : List (Event M)) (m : Machine F S B) → m.phase ≡ connecting → read_all events m ≡ m
  unfolding read_all
  read_all-connecting [] m at = refl
  read_all-connecting (e ∷ rest) m at =
      read_all_step e rest m connecting at ∙ read_all-connecting rest m at

  read_all-stopped :
      (events : List (Event M)) (m : Machine F S B) → m.phase ≡ stopped → read_all events m ≡ m
  unfolding read_all
  read_all-stopped [] m at = refl
  read_all-stopped (e ∷ rest) m at = read_all_step e rest m stopped at ∙ read_all-stopped rest m at

  lose-phase :
      (now : ℕ) (wait : Wait) (m : Machine F S B)
      → m.shutdown ≡ false
      → (lose show_u32 exchange now wait m).phase
        ≡ (if wait.interrupted then stopped else connecting)
  unfolding lose
  lose-phase now wait m quiet = elim (Bool-cases wait.interrupted) [
    | inl i ↦ rw (quiet, i) refl
    | inr i ↦ rw (quiet, i) refl
  ]

  after_lose :
      (rest : List (Event M)) (now : ℕ) (wait : Wait) (m : Machine F S B)
      → m.shutdown ≡ false
      → is_stopped (read_all rest (lose show_u32 exchange now wait m)).phase ≡ wait.interrupted
  after_lose rest now wait m quiet =
      let lost = lose show_u32 exchange now wait m in
      let at = lose-phase now wait m quiet in
      elim (Bool-cases wait.interrupted) [
        | inl i ↦
            ap (λ n. is_stopped n.phase) (read_all-stopped rest lost (at ∙ rw i refl))
            ∙ ap is_stopped at
            ∙ rw i refl
        | inr i ↦
            ap (λ n. is_stopped n.phase) (read_all-connecting rest lost (at ∙ rw i refl))
            ∙ ap is_stopped at
            ∙ rw i refl
      ]

  -- A client that reads, with no signal pending, ends exactly if a signal comes before the end of its
  -- stream or during the wait behind it.
  pub read_all-is_stopped :
      (events : List (Event M)) (b : B) (m : Machine F S B)
      → m.phase ≡ reading b
      → m.shutdown ≡ false
      → is_stopped (read_all events m).phase ≡ is_signalled events
  unfolding read_all receive skip interrupt
  read_all-is_stopped [] b m at quiet = ap is_stopped at
  read_all-is_stopped (text clock msg ∷ rest) b m at quiet =
      let m' = receive show_u32 exchange clock msg b m in
      let (client, after) = exchange.handle clock msg (m.client, b) in
      rw (read_all_step (text clock msg) rest m (reading b) at)
        (read_all-is_stopped rest after m' (rw quiet refl) (rw quiet refl))
  read_all-is_stopped (other ∷ rest) b m at quiet =
      rw (read_all_step other rest m (reading b) at)
        (read_all-is_stopped rest b (skip show_u32 exchange m) (rw quiet at) (rw quiet refl))
  read_all-is_stopped (closed now wait ∷ rest) b m at quiet =
      rw (read_all_step (closed now wait) rest m (reading b) at) (after_lose rest now wait m quiet)
  read_all-is_stopped (signal ∷ rest) b m at quiet =
      rw (read_all_step signal rest m (reading b) at)
        (ap (λ n. is_stopped n.phase) (read_all-stopped rest (interrupt show_u32 exchange m) refl))
