-- ===== src/Launch/Startup/Running.antt =====
-- What `main` of rs/src/main.rs starts, whatever QuestDB answers.
use cryptomeria.Common.{
  List, [], ◌∷◌, Bool, true, false, Option, none, some, String, ◌≡◌, refl, ◌∙◌, sym, subst,
  if◌then◌else◌, arith, All,
}
use cryptomeria.Common.Result.{Task}
use cryptomeria.Dict.{get, insert, text_key, get-insert}
use cryptomeria.Float.{Float}
use cryptomeria.Metrics.{LobMetrics}
use cryptomeria.Status.{StatusMap, starting}
use cryptomeria.Status.Isolation.{same_key}
use cryptomeria.Migrate.{Env}
use cryptomeria.Persistence.{resolve_questdb_conf}
use cryptomeria.Instruments.Aliases.{Alias}
use cryptomeria.Instruments.Names.{Casing}
use cryptomeria.Instruments.Resolve.{ResolvedInstrument}
use cryptomeria.Launch.{CliArgs, Started, entry_key, configure, start_statuses}
use cryptomeria.Launch.Entries.{by_name, launch-by_name, start_statuses-entries}
use cryptomeria.Launch.Startup.{
  Outcome, running, is_some, task_sender, spawn, start, prepare, instruments_of, main,
}

else_taken {ℓ} : {A : Type ℓ} (x y : A) (b : Bool) → b ≡ false → (if b then x else y) ≡ y
else_taken x y true h = ground arith
else_taken x y false h = refl

module _ {ℓ κ μ ν} {F : Type ℓ} {S : Type κ} {W : Type μ} {V : Type ν} ⦃f : Float F⦄
    (cli : CliArgs F) (casing : Casing) (aliases : List Alias) (env : Env W V)
    (from_conf : String → Task W S) (shared_metrics registered : LobMetrics F) where
  -- What the task of an instrument begins with: a status map that has its entry, no sender if the
  -- first connection failed, and the client of its exchange.
  abbrev pub IsStarted : Bool → String → ResolvedInstrument → Option (Started F S) → Type (ℓ ⊔ κ)
  IsStarted connected conf ri task =
      (sender : Option S) × (statuses : StatusMap F) × (get (entry_key ri) statuses ≡ some starting)
      × (sender ≡ (if connected then sender else none))
      × (task
          ≡ by_name cli conf shared_metrics statuses ri.region ri.exchange
              (configure cli conf shared_metrics statuses registered sender ri))

  -- one task for each instrument, in order
  pub data AreStarted (connected : Bool) (conf : String)
      : List ResolvedInstrument → List (Option (Started F S)) → Type (ℓ ⊔ κ) where
    all_started : AreStarted connected conf [] []
    one_started :
        {ri : ResolvedInstrument} {task : Option (Started F S)} {rest : List ResolvedInstrument}
        {tasks : List (Option (Started F S))}
        → IsStarted connected conf ri task
        → AreStarted connected conf rest tasks
        → AreStarted connected conf (ri ∷ rest) (task ∷ tasks)

  no_sender :
      (connected : Bool) (conf : String) (w : W)
      → (let sender =
            (task_sender cli casing aliases env from_conf shared_metrics registered connected conf
              w).0 in
          sender ≡ (if connected then sender else none))
  no_sender true conf w = refl
  no_sender false conf w = refl

  own_entry :
      (ri : ResolvedInstrument) (statuses : StatusMap F)
      → get (entry_key ri) (insert (entry_key ri) starting statuses) ≡ some starting
  own_entry ri statuses =
      get-insert (entry_key ri) (entry_key ri) starting statuses ∙ rw (same_key (entry_key ri)) refl

  spawn-AreStarted :
      (connected : Bool) (conf : String) (rs : List ResolvedInstrument) (statuses : StatusMap F)
      (w : W)
      → AreStarted connected conf rs
          (spawn cli casing aliases env from_conf shared_metrics registered connected conf rs
            statuses w).0
  unfolding spawn
  spawn-AreStarted connected conf [] statuses w = all_started
  spawn-AreStarted connected conf (ri ∷ rest) statuses w =
      one_started
        (
          (task_sender cli casing aliases env from_conf shared_metrics registered connected conf
              w).0,
          insert (entry_key ri) starting statuses,
          own_entry ri statuses,
          no_sender connected conf w,
          launch-by_name cli conf shared_metrics _ registered _ ri,
        )
        (spawn-AreStarted connected conf rest _ _)

  spawn-statuses :
      (connected : Bool) (conf : String) (rs : List ResolvedInstrument) (statuses : StatusMap F)
      (w : W)
      → (spawn cli casing aliases env from_conf shared_metrics registered connected conf rs statuses
          w).1
        ≡ start_statuses rs statuses
  unfolding spawn start_statuses
  spawn-statuses connected conf [] statuses w = refl
  spawn-statuses connected conf (ri ∷ rest) statuses w = spawn-statuses connected conf rest _ _

  abbrev pub HasStarted : Bool → String → List ResolvedInstrument → Outcome F S → Type (ℓ ⊔ κ)
  HasStarted connected conf rs outcome =
      (tasks : List (Option (Started F S))) × (statuses : StatusMap F) × (outcome
        ≡ running tasks statuses cli.metrics_port)
      × AreStarted connected conf rs tasks
      × All (λ ri. get (entry_key ri) statuses ≡ some starting) rs

  start-HasStarted :
      (connected : Bool) (conf : String) (rs : List ResolvedInstrument) (w : W)
      → ¬ (rs ≡ [])
      → HasStarted connected conf rs
          (start cli casing aliases env from_conf shared_metrics registered connected conf rs w).0
  start-HasStarted connected conf [] w h = absurd (h refl)
  start-HasStarted connected conf (ri ∷ rest) w h = (
    _,
    _,
    refl,
    spawn-AreStarted connected conf (ri ∷ rest) [] w,
    subst (λ map. All (λ r. get (entry_key r) map ≡ some starting) (ri ∷ rest))
        (sym (spawn-statuses connected conf (ri ∷ rest) [] w))
        (start_statuses-entries (ri ∷ rest) []),
  )

  -- without the option for the table
  main-start :
      (env_conf : Option String) (w : W)
      → cli.list_instruments ≡ false
      → (let conf = resolve_questdb_conf cli.questdb_conf env_conf in
          let (sender, prepared) =
            prepare cli casing aliases env from_conf shared_metrics registered conf w in
          main cli casing aliases env from_conf shared_metrics registered env_conf w
          ≡ start cli casing aliases env from_conf shared_metrics registered
              (is_some sender)
              conf
              (instruments_of cli casing aliases)
              prepared)
  unfolding main
  main-start env_conf w shown = else_taken _ _ cli.list_instruments shown

  -- If the arguments name an instrument and do not ask for the table, then whatever the migrations and
  -- the connections to QuestDB give, main starts one task for each instrument in order: the client of
  -- its exchange, without a sender if the first connection failed, beside a status that says that it
  -- starts. Behind them, all these statuses are there, and the server gets the port of the arguments.
  pub main-HasStarted :
      (env_conf : Option String) (w : W)
      → cli.list_instruments ≡ false
      → ¬ (instruments_of cli casing aliases ≡ [])
      → (let conf = resolve_questdb_conf cli.questdb_conf env_conf in
          HasStarted
            (is_some (prepare cli casing aliases env from_conf shared_metrics registered conf w).0)
            conf
            (instruments_of cli casing aliases)
            (main cli casing aliases env from_conf shared_metrics registered env_conf w).0)
  main-HasStarted env_conf w shown named =
      let conf = resolve_questdb_conf cli.questdb_conf env_conf in
      let (sender, prepared) =
        prepare cli casing aliases env from_conf shared_metrics registered conf w in
      subst (λ o. HasStarted (is_some sender) conf (instruments_of cli casing aliases) o.0)
        (sym (main-start env_conf w shown)) (start-HasStarted _ conf _ prepared named)
