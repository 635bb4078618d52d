-- ===== src/Launch/Startup.antt =====
-- `main` of rs/src/main.rs: the migrations, the senders, the tasks of the instruments, and the port of
-- the server. What is logged is left out, and so are the tasks themselves: a run ends here with what
-- each of them begins with.
pub mod Running
use cryptomeria.Common.{
  ℕ, List, [], ◌∷◌, Bool, true, false, Option, none, some, String, if◌then◌else◌,
}
use cryptomeria.Common.Result.{Result, ok, err, Task}
use cryptomeria.Dict.{insert, text_key}
use cryptomeria.Float.{Float}
use cryptomeria.Metrics.{LobMetrics}
use cryptomeria.Status.{StatusMap, starting}
use cryptomeria.Migrate.{Env}
use cryptomeria.Persistence.{resolve_questdb_conf}
use cryptomeria.Persistence.Setup.{connect, run_migrations}
use cryptomeria.Instruments.Aliases.{Alias}
use cryptomeria.Instruments.Names.{Casing}
use cryptomeria.Instruments.Resolve.{ResolvedInstrument, resolve_arguments}
use cryptomeria.Launch.{CliArgs, Started, entry_key, launch}
use cryptomeria.Launch.Table.{print_instrument_table}

-- How a run of the program goes: it prints the table, it finds no instrument, or it starts a task for
-- each of them (`none` for one that panics) behind the statuses, and a server if there is a port.
pub data Outcome {ℓ κ} (F : Type ℓ) (S : Type κ) : Type (ℓ ⊔ κ) where
  listed : List (List String) → Outcome F S
  no_instruments : Outcome F S
  running :
      (tasks : List (Option (Started F S))) (statuses : StatusMap F) (metrics_port : Option ℕ)
      → Outcome F S

-- the sender, if there is one; an error is only logged
abbrev pub sender_of {ℓ κ} : {S : Type ℓ} {W : Type κ} → Result S × W → Option S × W
sender_of (ok s, w) = (some s, w)
sender_of (err e, w) = (none, w)

abbrev pub is_some {ℓ} : {A : Type ℓ} → Option A → Bool
is_some none = false
is_some (some a) = true

abbrev pub instruments_of {ℓ} :
    {F : Type ℓ} → CliArgs F → Casing → List Alias → List ResolvedInstrument
instruments_of cli casing aliases =
    resolve_arguments casing aliases cli.instruments cli.instrument cli.exchange cli.region

-- `W` is the state of QuestDB and of the network. `shared_metrics` is what `LobMetrics::new` makes with
-- the shared registry, `registered` what it makes for a client.
module _ {ℓ κ μ ν} {F : Type ℓ} {S : Type κ} {W : Type μ} {V : Type ν} ⦃f : Float F⦄
    (cli : CliArgs F) (casing : Casing) (aliases : List Alias) (env : Env W V)
    (from_conf : String → Task W S) (shared_metrics registered : LobMetrics F) where
  abbrev pub connect_sender : String → W → Option S × W
  connect_sender conf w = sender_of (connect from_conf conf w)

  -- a sender for the task, if the first connection of `main` was made
  abbrev pub task_sender : Bool → String → W → Option S × W
  task_sender true conf w = connect_sender conf w
  task_sender false conf w = (none, w)

  -- One turn for each instrument: its status, its sender, its task. The result is the tasks, the
  -- statuses and the state.
  unfoldable pub spawn :
      Bool
      → String
      → List ResolvedInstrument
      → StatusMap F
      → W
      → List (Option (Started F S)) × StatusMap F × W
  spawn connected conf [] statuses w = ([], statuses, w)
  spawn connected conf (ri ∷ rest) statuses w =
      let with_entry = insert (entry_key ri) starting statuses in
      let (sender, after) = task_sender connected conf w in
      let (tasks, last, end) = spawn connected conf rest with_entry after in
      (launch cli conf shared_metrics with_entry registered sender ri ∷ tasks, last, end)

  abbrev pub start : Bool → String → List ResolvedInstrument → W → Outcome F S × W
  start connected conf [] w = (no_instruments, w)
  start connected conf (ri ∷ rest) w =
      let (tasks, statuses, end) = spawn connected conf (ri ∷ rest) [] w in
      (running tasks statuses cli.metrics_port, end)

  -- the first connection, behind the migrations, whose error is only logged
  abbrev pub prepare : String → W → Option S × W
  prepare conf w = connect_sender conf (run_migrations env conf w).1

  -- `env_conf` is the variable QDB_CLIENT_CONF.
  unfoldable pub main : Option String → W → Outcome F S × W
  main env_conf w =
      if cli.list_instruments
      then (listed (print_instrument_table casing aliases), w)
      else let conf = resolve_questdb_conf cli.questdb_conf env_conf in
        let (sender, prepared) = prepare conf w in
        start (is_some sender) conf (instruments_of cli casing aliases) prepared
