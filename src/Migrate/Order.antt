-- ===== src/Migrate/Order.antt =====
-- In which order migrations are executed, and where a failure stops them.
use cryptomeria.Common.{
  List, [], ◌∷◌, ◌++◌, true, false, String, ◌≡◌, ◌⊎◌, inl, inr, refl, Bool-cases, ap, ◌∙◌, All, sym,
  subst,
}
use cryptomeria.Common.Result.{ok, err, Result-cases}
use cryptomeria.Migrate.{
  Env, Migration, AppliedMigration, is_applied, execute_sql, record_migration, apply_migration,
  apply_pending, list_applied, run_migrations, schema_version_ddl,
}

module _ {ℓ κ} {S : Type ℓ} {V : Type κ} (env : Env S V) (http_addr : String)
    (applied : List AppliedMigration) where
  -- `Applies ms s t`: from `s`, the migrations that are not applied were executed and recorded one
  -- after the other, each with success, up to `t`.
  pub data Applies : List Migration → S → S → Type ℓ where
    finished : {s : S} → Applies [] s s
    skipped :
        {m : Migration} {ms : List Migration} {s t : S}
        → is_applied applied m.version ≡ true
        → Applies ms s t
        → Applies (m ∷ ms) s t
    executed :
        {m : Migration} {ms : List Migration} {s t : S} (u v : S)
        → is_applied applied m.version ≡ false
        → execute_sql env http_addr m.sql s ≡ (ok tt, u)
        → record_migration env http_addr m u ≡ (ok tt, v)
        → Applies ms v t
        → Applies (m ∷ ms) s t

  -- The first migration that fails, with the state that it leaves.
  abbrev pub FailsAt : List Migration → S → String → S → Type ℓ
  FailsAt ms s e t =
      (before : List Migration) × ((m : Migration) × ((later : List Migration) × ((u : S) × ((ms
                ≡ before ++ (m ∷ later))
              × (Applies before s u
                  × ((is_applied applied m.version ≡ false)
                      × (apply_migration env http_addr m u ≡ (err e, t))))))))

  -- If every migration is applied already, none is executed and the database stays as it is.
  pub apply_pending-nothing_new :
      (ms : List Migration) (s : S)
      → All (λ m. is_applied applied m.version ≡ true) ms
      → apply_pending env http_addr applied ms s ≡ (ok tt, s)
  unfolding apply_pending
  apply_pending-nothing_new [] s h = refl
  apply_pending-nothing_new (m ∷ ms) s (h, hs) = rw h (apply_pending-nothing_new ms s hs)

  pub Applies-apply_pending :
      (ms : List Migration) (s t : S)
      → Applies ms s t
      → apply_pending env http_addr applied ms s ≡ (ok tt, t)
  unfolding apply_pending apply_migration
  Applies-apply_pending [] s _ finished = refl
  Applies-apply_pending (m ∷ ms) s t (skipped old rest) = rw old (Applies-apply_pending ms s t rest)
  Applies-apply_pending (m ∷ ms) s t (executed u v new ran recorded rest) =
      rw new (rw ran (rw recorded (Applies-apply_pending ms v t rest)))

  apply_migration-ok :
      (m : Migration) (s t : S)
      → apply_migration env http_addr m s ≡ (ok tt, t)
      → (u : S) × ((execute_sql env http_addr m.sql s ≡ (ok tt, u))
          × (record_migration env http_addr m u ≡ (ok tt, t)))
  unfolding apply_migration
  apply_migration-ok m s t h = elim (Result-cases (execute_sql env http_addr m.sql s)) [
    | inr (e, (u, failed)) ↦ cc (rw failed at h)
    | inl (a, (u, ran)) ↦ elim (Result-cases (record_migration env http_addr m u)) [
      | inr (e, (v, failed)) ↦ let left = rw ran at h in cc (rw failed at left)
      | inl (b, (v, recorded)) ↦
          let left = rw ran at h in (u, (ran, recorded ∙ (rw recorded at left)))
    ]
  ]

  -- Either all migrations that are not applied are executed and recorded in order, and the run
  -- succeeds; or those before some migration are, it fails, and the run gives its error and leaves
  -- the database as the failure did: nothing after it is executed.
  pub apply_pending_outcome :
      (ms : List Migration) (s : S)
      → ((t : S) × ((apply_pending env http_addr applied ms s ≡ (ok tt, t)) × Applies ms s t))
        ⊎ ((e : String) × ((t : S) × ((apply_pending env http_addr applied ms s ≡ (err e, t))
                × FailsAt ms s e t)))
  unfolding apply_pending
  apply_pending_outcome [] s = inl (s, (refl, finished))
  apply_pending_outcome (m ∷ ms) s = elim (Bool-cases (is_applied applied m.version)) [
    | inl old ↦ elim (apply_pending_outcome ms s) [
      | inl (t, (run, rest)) ↦ inl (t, (rw old run, skipped old rest))
      | inr (e, (t, (run, (before, (n, (later, (u, (split, (done, stop))))))))) ↦ inr (
        e,
        (
          t,
          (
            rw old run,
            (m ∷ before, (n, (later, (u, (ap (◌∷◌ m) split, (skipped old done, stop)))))),
          ),
        ),
      )
    ]
    | inr new ↦ elim (Result-cases (apply_migration env http_addr m s)) [
      | inr (e, (t, failed)) ↦ inr (
        e,
        (t, (rw new (rw failed refl), ([], (m, (ms, (s, (refl, (finished, (new, failed))))))))),
      )
      | inl (a, (v, ran)) ↦
          let (u, (first, second)) = apply_migration-ok m s v ran in
          elim (apply_pending_outcome ms v) [
            | inl (t, (run, rest)) ↦
                inl (t, (rw new (rw ran run), executed u v new first second rest))
            | inr (e, (t, (run, (before, (n, (later, (w, (split, (done, stop))))))))) ↦ inr (
              e,
              (
                t,
                (
                  rw new (rw ran run),
                  (
                    m ∷ before,
                    (
                      n,
                      (later, (w, (ap (◌∷◌ m) split, (executed u v new first second done, stop)))),
                    ),
                  ),
                ),
              ),
            )
          ]
    ]
  ]

module _ {ℓ κ} {S : Type ℓ} {V : Type κ} (env : Env S V) (http_addr : String) where
  -- If the table `schema_version` is there and lists every migration, a run only makes sure of the
  -- table and reads it: it succeeds, and no migration is executed a second time.
  pub run_migrations-nothing_new :
      (ms : List Migration) (s t u : S) (applied : List AppliedMigration)
      → execute_sql env http_addr schema_version_ddl s ≡ (ok tt, t)
      → list_applied env http_addr t ≡ (ok applied, u)
      → All (λ m. is_applied applied m.version ≡ true) ms
      → run_migrations env http_addr ms s ≡ (ok tt, u)
  unfolding run_migrations
  run_migrations-nothing_new ms s t u applied created listed h =
      rw created (rw listed (apply_pending-nothing_new env http_addr applied ms u h))

  -- If the second of the two statements that make sure of the table fails, the run goes on as if no
  -- migration were applied: if it succeeds, each of them was executed and recorded again.
  pub run_migrations-lost_list :
      (ms : List Migration) (s t u v : S) (e : String)
      → execute_sql env http_addr schema_version_ddl s ≡ (ok tt, t)
      → execute_sql env http_addr schema_version_ddl t ≡ (err e, u)
      → run_migrations env http_addr ms s ≡ (ok tt, v)
      → Applies env http_addr [] ms u v
  unfolding run_migrations list_applied
  run_migrations-lost_list ms s t u v e created failed h =
      let left = rw failed at (rw created at h) in
      elim (apply_pending_outcome env http_addr [] ms u) [
        | inl (w, (run, steps)) ↦
            subst (λ x. Applies env http_addr [] ms u x) (ap (λ r. r.1) (sym run ∙ left)) steps
        | inr (e', (w, (run, stop))) ↦ cc (run, left)
      ]
