-- ===== src/Persistence/Setup.antt =====
-- What rs/src/db/mod.rs does at the start: the migrations of the program, the configuration of the
-- sender, and the time that rows are kept. The texts are those of rs/src/db/migrations.
use Prim.Native.String.{◌++◌ as ◌⊕◌}
use cryptomeria.Common.{List, [], ◌∷◌, Option, none, some, String, if◌then◌else◌}
use cryptomeria.Common.Int.{pos}
use cryptomeria.Common.Result.{Result, ok, Task, done, ◌>>◌}
use cryptomeria.Text.{is_empty_text}
use cryptomeria.Migrate.{Migration, Env, execute_sql}
use cryptomeria.Migrate
use cryptomeria.Persistence.{default_qdb_conf, extract_http_addr}

abbrev pub create_trades : String
create_trades =
    "CREATE TABLE IF NOT EXISTS trades (\n" ⊕ "    inst_id SYMBOL INDEX TYPE POSTING,\n"
    ⊕ "    trade_id SYMBOL,\n" ⊕ "    px DOUBLE,\n" ⊕ "    sz DOUBLE,\n" ⊕ "    side SYMBOL,\n"
    ⊕ "    exchange SYMBOL INDEX TYPE POSTING,\n" ⊕ "    ts TIMESTAMP\n"
    ⊕ ") TIMESTAMP(ts) PARTITION BY HOUR TTL 1 HOURS;"

abbrev pub create_lob_levels : String
create_lob_levels =
    "CREATE TABLE IF NOT EXISTS lob_levels (\n" ⊕ "    inst_id SYMBOL INDEX TYPE POSTING,\n"
    ⊕ "    ts TIMESTAMP,\n" ⊕ "    action SYMBOL,\n"
    ⊕ "    side SYMBOL INDEX TYPE POSTING INCLUDE(price),\n" ⊕ "    price DOUBLE,\n"
    ⊕ "    size DOUBLE,\n" ⊕ "    count DOUBLE,\n" ⊕ "    orders DOUBLE,\n"
    ⊕ "    exchange SYMBOL INDEX TYPE POSTING\n"
    ⊕ ") TIMESTAMP(ts) PARTITION BY HOUR TTL 1 HOURS;\n"

abbrev pub add_best_diff : String
add_best_diff = "ALTER TABLE lob_levels ADD COLUMN best_diff DOUBLE;\n"

abbrev pub migrations : List Migration
migrations =
    record { version = pos 1; name = "create_trades"; sql = create_trades }
    ∷ record { version = pos 2; name = "create_lob_levels"; sql = create_lob_levels }
    ∷ record { version = pos 3; name = "add_best_diff_to_lob_levels"; sql = add_best_diff }
    ∷ []

-- `from_conf` is questdb's `Sender::from_conf`; `A` is its result, or a task that gives one.
unfoldable pub connect {ℓ} : {A : Type ℓ} → (String → A) → String → A
connect from_conf conf_str =
    from_conf (if is_empty_text conf_str then default_qdb_conf else conf_str)

module _ {ℓ κ} {S : Type ℓ} {V : Type κ} (env : Env S V) where
  unfoldable pub run_migrations : String → Task S (Unit {0})
  run_migrations conf_str = Migrate.run_migrations env (extract_http_addr conf_str) migrations

  abbrev pub ignore : Result (Unit {0}) × S → Result (Unit {0}) × S
  ignore (r, s) = (ok tt, s)

  -- one table; an error is logged
  abbrev pub set_ttl : String → String → String → Task S (Unit {0})
  set_ttl http_addr hours table s =
      ignore (execute_sql env http_addr ("ALTER TABLE " ⊕ table ⊕ " SET TTL " ⊕ hours ⊕ " HOURS") s)

  -- `hours` is the text of the number. The request of execute_sql in db/mod.rs is that of the migrator,
  -- with a limit of time; building the HTTP client is taken to succeed.
  unfoldable pub apply_ttl : String → String → Task S (Unit {0})
  apply_ttl hours questdb_conf =
      let http_addr = extract_http_addr questdb_conf in
      set_ttl http_addr hours "lob_levels" >> set_ttl http_addr hours "trades"

  -- `run` of each client, before its loops; `retention_window` is the text of the number, and an error
  -- is logged.
  unfoldable pub keep_for : Option String → String → Task S (Unit {0})
  keep_for none questdb_conf = done tt
  keep_for (some hours) questdb_conf = λ s. ignore (apply_ttl hours questdb_conf s)
