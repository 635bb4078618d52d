-- ===== src/Tests/Migrations.antt =====
-- Runs of the migrator against a database that answers its requests in turn.
use cryptomeria.Common.{ℕ, List, [], ◌∷◌, Bool, true, false, Option, some, String, ◌≡◌, ◌⊎◌, refl}
use cryptomeria.Common.Int.{ℤ, pos}
use cryptomeria.Common.Result.{Result, ok, err, Task}
use cryptomeria.Migrate.{
  Env, Migration, AppliedMigration, Response, execute_sql, query_json, list_applied,
  apply_migration, apply_pending, run_migrations,
}
use cryptomeria.Migrate.Order.{
  Applies, FailsAt, apply_pending_outcome, run_migrations-nothing_new, run_migrations-lost_list,
}

-- Whether each request to come succeeds.
abbrev pub Plan : Type 0
Plan = List Bool

abbrev answer : Bool → Result Response
answer success = ok (record { success = success; text = ok "body" })

abbrev reply : String → Task Plan Response
reply url [] = (answer true, [])
reply url (b ∷ rest) = (answer b, rest)

-- The table holds one row, of version 1.
abbrev number_of : ℕ → Option ℤ
number_of n = some (pos 1)

abbrev text_of : ℕ → Option String
text_of n = some "create_trades"

abbrev pub env : Env Plan ℕ
env = record {
  send = reply;
  encode = λ sql. sql;
  from_str = λ body. ok 0;
  dataset = λ v. some (1 ∷ []);
  as_array = λ v. some (2 ∷ 3 ∷ 4 ∷ []);
  as_i64 = number_of;
  as_str = text_of;
  show_i32 = λ n. "1";
  double_quotes = λ name. name;
  now = λ s. "2026-07-27T00:00:00.000Z";
}

abbrev address : String
address = "localhost:9000"

abbrev trades : Migration
trades = record { version = pos 1; name = "create_trades"; sql = "CREATE TABLE trades (px DOUBLE)" }

abbrev levels : Migration
levels = record {
  version = pos 2;
  name = "create_lob_levels";
  sql = "CREATE TABLE lob_levels (px DOUBLE)";
}

abbrev listed : List AppliedMigration
listed = record { version = pos 1; name = "create_trades"; applied_on = "create_trades" } ∷ []

-- The insert of the second migration fails.
stops :
    apply_pending env address listed (trades ∷ levels ∷ []) (true ∷ false ∷ [])
    ≡ (err "Failed to record V1__create_lob_levels: QuestDB SQL error: body", [])
unfolding apply_pending apply_migration execute_sql
stops = refl

apply_pending_outcome_example :
    ((t : Plan) × ((apply_pending env address listed (trades ∷ levels ∷ []) (true ∷ false ∷ [])
          ≡ (ok tt, t))
        × Applies env address listed (trades ∷ levels ∷ []) (true ∷ false ∷ []) t))
    ⊎ ((e : String) × ((t : Plan) × ((apply_pending env address listed
                (trades ∷ levels ∷ [])
                (true ∷ false ∷ [])
              ≡ (err e, t))
            × FailsAt env address listed (trades ∷ levels ∷ []) (true ∷ false ∷ []) e t)))
apply_pending_outcome_example =
    apply_pending_outcome env address listed (trades ∷ levels ∷ []) (true ∷ false ∷ [])

run_migrations-nothing_new_example :
    run_migrations env address (trades ∷ []) (true ∷ true ∷ true ∷ []) ≡ (ok tt, [])
unfolding execute_sql list_applied query_json
run_migrations-nothing_new_example =
    run_migrations-nothing_new env address (trades ∷ []) (true ∷ true ∷ true ∷ [])
      (true ∷ true ∷ []) [] listed refl refl (refl, tt)

run_migrations-lost_list_example : Applies env address [] (trades ∷ []) (true ∷ true ∷ []) []
unfolding execute_sql list_applied run_migrations apply_pending apply_migration
run_migrations-lost_list_example =
    run_migrations-lost_list env address (trades ∷ []) (true ∷ false ∷ true ∷ true ∷ [])
      (false ∷ true ∷ true ∷ []) (true ∷ true ∷ []) [] "QuestDB SQL error: body" refl refl refl
