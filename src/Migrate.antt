-- ===== src/Migrate.antt =====
-- rs/src/migrate.rs: the migrations that the database does not have yet are executed in order, and
-- each is recorded in the table `schema_version`. What the migrator logs is left out.
pub mod Order
use Prim.Native.String.{◌++◌ as ◌⊕◌}
use cryptomeria.Common.{
  ℕ, ◌+◌, ◌-◌, ◌%◌, ◌^◌, List, [], ◌∷◌, Bool, true, false, ◌||◌, ◌==◌, Option, none, some, String,
  ltb, if◌then◌else◌, keep_map,
}
use cryptomeria.Common.Int.{ℤ, pos, negsuc, int_eq}
use cryptomeria.Common.Result.{Result, ok, err, Task, done, failed, result, map_err, ◌>>=◌, ◌>>◌}
use cryptomeria.Json.{and_then}

abbrev pub schema_version_ddl : String
schema_version_ddl =
    "CREATE TABLE IF NOT EXISTS schema_version (version INT, name STRING, applied_on STRING)"

pub record Migration : Type 0 where
  pub version : ℤ
  pub name : String
  pub sql : String

pub record AppliedMigration : Type 0 where
  pub version : ℤ
  pub name : String
  pub applied_on : String

-- A response of reqwest: whether its status is a success, and what `text()` gives.
pub record Response : Type 0 where
  pub success : Bool
  pub text : Result String

-- What the migrator calls, over the state `S` of the database and the type `V` of
-- `serde_json::Value`: a request of reqwest, `urlencoding::encode`, serde_json's parser and
-- accessors, the texts of an `i32`, of an error and of the time, and the doubling of quotes.
pub record Env {ℓ κ} (S : Type ℓ) (V : Type κ) : Type (ℓ ⊔ κ) where
  pub send : String → Task S Response
  pub encode : String → String
  pub from_str : String → Result V
  pub dataset : V → Option (List V)  -- `json["dataset"].as_array()`
  pub as_array : V → Option (List V)
  pub as_i64 : V → Option ℤ
  pub as_str : V → Option String
  pub show_i32 : ℤ → String
  pub double_quotes : String → String
  pub now : S → String

-- `n as i32`
abbrev pub as_i32 : ℤ → ℤ
as_i32 (pos n) = let r = n % 2 ^ 32 in if ltb r (2 ^ 31) then pos r else negsuc (2 ^ 32 - 1 - r)
as_i32 (negsuc n) = let r = n % 2 ^ 32 in if ltb r (2 ^ 31) then negsuc r else pos (2 ^ 32 - 1 - r)

abbrev pub unwrap_or {ℓ} : {A : Type ℓ} → A → Option A → A
unwrap_or a none = a
unwrap_or a (some b) = b

-- `applied_map.contains_key(version)`
abbrev pub is_applied : List AppliedMigration → ℤ → Bool
is_applied [] version = false
is_applied (a ∷ rest) version = int_eq a.version version || is_applied rest version

module _ {ℓ κ} {S : Type ℓ} {V : Type κ} (env : Env S V) (http_addr : String) where
  abbrev pub exec_url : String → String
  exec_url sql = "http://" ⊕ http_addr ⊕ "/exec?query=" ⊕ env.encode sql

  -- a response without success is an error with its text, or the error of reading it
  abbrev pub refuse : Response → Result (Unit {0})
  refuse r = elim r.text [ ok text ↦ err ("QuestDB SQL error: " ⊕ text) | err e ↦ err e ]

  abbrev pub accept : Response → Task S (Unit {0})
  accept r = if r.success then done tt else result (refuse r)

  unfoldable pub execute_sql : String → Task S (Unit {0})
  execute_sql sql = env.send (exec_url sql) >>= accept

  abbrev pub json_error : String → String
  json_error e = "JSON parse error: " ⊕ e

  unfoldable pub query_json : String → Task S V
  query_json sql = do
    response ← env.send (exec_url sql)
    accept response
    body ← result response.text
    map_err json_error (result (env.from_str body))

  abbrev pub read_parts : List V → Option AppliedMigration
  read_parts (v ∷ n ∷ t ∷ rest) = some (record {
    version = as_i32 (unwrap_or (pos 0) (env.as_i64 v));
    name = unwrap_or "" (env.as_str n);
    applied_on = unwrap_or "" (env.as_str t);
  })
  read_parts _ = none

  -- a row that is no array has no parts
  abbrev pub read_row : V → Option AppliedMigration
  read_row row = read_parts (unwrap_or [] (env.as_array row))

  abbrev pub query_applied : Task S (List AppliedMigration)
  query_applied = do
    json ← query_json "SELECT version, name, applied_on FROM schema_version ORDER BY version ASC"
    done (keep_map read_row (unwrap_or [] (env.dataset json)))

  -- If the table cannot be made sure of, no migration counts as applied.
  abbrev pub applied_behind : Result (Unit {0}) × S → Result (List AppliedMigration) × S
  applied_behind (ok u, s) = query_applied s
  applied_behind (err e, s) = (ok [], s)

  unfoldable pub list_applied : Task S (List AppliedMigration)
  list_applied s = applied_behind (execute_sql schema_version_ddl s)

  abbrev pub version_name : Migration → String
  version_name m = "V" ⊕ env.show_i32 m.version ⊕ "__" ⊕ m.name

  abbrev pub insert_sql : Migration → String → String
  insert_sql m time =
      "INSERT INTO schema_version (version, name, applied_on) VALUES ("
      ⊕ env.show_i32 m.version
      ⊕ ", '"
      ⊕ env.double_quotes m.name
      ⊕ "', '"
      ⊕ time
      ⊕ "')"

  abbrev pub migrate_error : Migration → String → String
  migrate_error m e = "Migration " ⊕ version_name m ⊕ " failed: " ⊕ e

  abbrev pub record_error : Migration → String → String
  record_error m e = "Failed to record " ⊕ version_name m ⊕ ": " ⊕ e

  abbrev pub record_migration : Migration → Task S (Unit {0})
  record_migration m s = execute_sql (insert_sql m (env.now s)) s

  -- one round of the loop, for a migration that is not applied
  unfoldable pub apply_migration : Migration → Task S (Unit {0})
  apply_migration m = do
    map_err (migrate_error m) (execute_sql m.sql)
    map_err (record_error m) (record_migration m)

  unfoldable pub apply_pending : List AppliedMigration → List Migration → Task S (Unit {0})
  apply_pending applied [] = done tt
  apply_pending applied (m ∷ rest) =
      let later = apply_pending applied rest in
      if is_applied applied m.version then later else apply_migration m >> later

  unfoldable pub run_migrations : List Migration → Task S (Unit {0})
  run_migrations migrations = do
    execute_sql schema_version_ddl
    applied ← list_applied
    apply_pending applied migrations
