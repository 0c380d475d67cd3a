-- ===== src/Migrate/Atomic.antt =====
-- `Apply` of core/db/migrate/migrate.go is all or nothing: what the tracking table holds when it
-- returns.
use kumacore.Prelude.{
  ℕ, Option, none, some, List, [], ◌∷◌, ◌++◌, Result, ok, err, ◌≡◌, ◌⊎◌, inl, inr, refl, sym, arith,
  ap, ◌∙◌, map, append-nil, append_assoc, Bool-cases, Option-cases, Result-cases,
}
use kumacore.Prelude.Text.{Str}
use kumacore.Migrate.Types.{
  Source, MigrationFile, AppliedMigration, MigrateError, begin_failed, create_failed, commit_failed,
}
use kumacore.Migrate.Plan.{Database, Plan, ReadFaults, validate}
use kumacore.Migrate.Apply.{
  ApplyFaults, create_tracking, ensure_tracking_table, has_sequence, insert_row, applied_row,
  apply_migration, PlanTransaction, begin_plan, rollback_plan, commit_plan, finish_plan, apply_all,
  in_transaction, apply_plan, apply,
}

-- The rows of the tracking table; a table that is not there has none.
abbrev pub rows_of : {S : Type 0} → Database S → List AppliedMigration
rows_of db = elim db.tracking [ none ↦ [] | some rows ↦ rows ]

create_tracking-rows : {S : Type 0} (db : Database S) → rows_of (create_tracking db) ≡ rows_of db
unfolding create_tracking
create_tracking-rows db = elim (Option-cases db.tracking) [
  | inl e ↦ rw e refl
  | inr (rows, e) ↦ rw e refl
]

ok_inj :
    {S : Type 0} {left right : S} → Path (Result MigrateError S) (ok left) (ok right) → right ≡ left
ok_inj e = cc

insert_row-rows :
    {S : Type 0} (row : AppliedMigration) (db done : Database S)
    → insert_row row db ≡ some done
    → rows_of done ≡ rows_of db ++ row ∷ []
unfolding insert_row
insert_row-rows row db done h = elim (Option-cases db.tracking) [
  | inl e ↦ ground (arith, e, h)
  | inr (rows, e) ↦ elim (Bool-cases (has_sequence row.sequence rows)) [
    | inl known ↦ ground (arith, e, known, h)
    | inr fresh ↦ ground (arith, e, fresh, h)
  ]
]

module _ {S : Type 0} (run_script : Str → Database S → Option (Database S)) where
  -- A migration's script leaves the tracking table alone.
  abbrev pub KeepsTracking : Type 0
  KeepsTracking =
      (script : Str) (db done : Database S)
      → run_script script db ≡ some done
      → done.tracking ≡ db.tracking

  module _ (keeps : KeepsTracking) (faults : ApplyFaults) (now : ℕ) where
    apply_migration-rows :
        (file : MigrationFile) (db done : Database S)
        → apply_migration run_script faults now file db ≡ ok done
        → rows_of done ≡ rows_of db ++ applied_row now file ∷ []
    unfolding apply_migration
    apply_migration-rows file db done h = elim (Option-cases (run_script file.sql db)) [
      | inl e ↦ ground (arith, e, h)
      | inr (ran, e) ↦ elim (Bool-cases (faults.at_record file.sequence)) [
        | inl b ↦ ground (arith, e, b, h)
        | inr b ↦ elim (Option-cases (insert_row (applied_row now file) ran)) [
          | inl f ↦ ground (arith, e, b, f, h)
          | inr (last, f) ↦
              let same : last ≡ done = ground (arith, e, b, f, h) in
              ap rows_of (sym same)
              ∙ insert_row-rows (applied_row now file) ran last f
              ∙ ap (λ t. elim t [ none ↦ [] | some rows ↦ rows ] ++ applied_row now file ∷ [])
                  (keeps file.sql db ran e)
        ]
      ]
    ]

    -- The loop keeps what is stored, and at its end has added a row for each file.
    apply_all-cases :
        (files : List MigrationFile) (tx : PlanTransaction S)
        → ((left : PlanTransaction S) × (e : MigrateError) × (apply_all run_script faults now files
                tx
              ≡ (left, some e))
            × (left.stored ≡ tx.stored))
          ⊎ ((left : PlanTransaction S) × (apply_all run_script faults now files tx ≡ (left, none))
              × (left.stored ≡ tx.stored)
              × (rows_of left.working ≡ rows_of tx.working ++ map (applied_row now) files))
    unfolding apply_all
    apply_all-cases [] tx = inr (tx, refl, refl, sym (append-nil (rows_of tx.working)))
    apply_all-cases (file ∷ files) tx =
        let after : Result MigrateError (Database S) → PlanTransaction S × Option MigrateError =
          λ applied. elim applied [
            | err e ↦ (tx, some e)
            | ok working ↦ apply_all run_script faults now files (record tx { working = working })
          ] in
        elim (Result-cases (apply_migration run_script faults now file tx.working)) [
          | inr (e, p) ↦ inl (tx, e, ap after p, refl)
          | inl (mid, p) ↦ elim (apply_all-cases files (record tx { working = mid })) [
            | inl (left, e, q, same) ↦ inl (left, e, ap after p ∙ q, same)
            | inr (left, q, same, rows) ↦ inr (
              left,
              ap after p ∙ q,
              same,
              rows
                  ∙ ap (◌++ map (applied_row now) files)
                      (apply_migration-rows file tx.working mid p)
                  ∙ append_assoc (rows_of tx.working) (applied_row now file ∷ [])
                      (map (applied_row now) files),
            )
          ]
        ]

    in_transaction-cases :
        (files : List MigrationFile) (tx : PlanTransaction S)
        → ((e : MigrateError) × (in_transaction run_script faults now files tx
              ≡ (tx.stored, some e)))
          ⊎ ((done : Database S) × (in_transaction run_script faults now files tx ≡ (done, none))
              × (rows_of done ≡ rows_of tx.working ++ map (applied_row now) files))
    unfolding in_transaction ensure_tracking_table finish_plan rollback_plan commit_plan
    in_transaction-cases files tx = elim (Bool-cases faults.at_create) [
      | inl bad ↦ inl (create_failed, rw bad refl)
      | inr fine ↦
          elim (apply_all-cases files (record tx { working = create_tracking tx.working })) [
            | inl (left, e, p, same) ↦ inl (e, rw (fine, p) (ap (λ d. (d, some e)) same))
            | inr (left, p, same, rows) ↦ elim (Bool-cases faults.at_commit) [
              | inl bad ↦
                  inl (commit_failed, rw (fine, p, bad) (ap (λ d. (d, some commit_failed)) same))
              | inr fine1 ↦ inr (
                left.working,
                rw (fine, p, fine1) refl,
                rows ∙ ap (◌++ map (applied_row now) files) (create_tracking-rows tx.working),
              )
            ]
          ]
    ]

    apply_plan-cases :
        (files : List MigrationFile) (db : Database S)
        → ((e : MigrateError) × (apply_plan run_script faults now
                (record { pending_migrations = files })
                db
              ≡ (db, some e)))
          ⊎ ((done : Database S) × (apply_plan run_script faults now
                  (record { pending_migrations = files })
                  db
                ≡ (done, none))
              × (rows_of done ≡ rows_of db ++ map (applied_row now) files))
    unfolding apply_plan begin_plan ensure_tracking_table
    apply_plan-cases [] db = inr (db, refl, sym (append-nil (rows_of db)))
    apply_plan-cases (file ∷ files) db = elim (Bool-cases faults.at_begin) [
      | inl bad ↦ inl (begin_failed, rw bad refl)
      | inr fine ↦
          elim (in_transaction-cases (file ∷ files) (record { stored = db; working = db })) [
            | inl (e, p) ↦ inl (e, rw fine p)
            | inr (done, p, rows) ↦ inr (done, rw fine p, rows)
          ]
    ]

    -- If no script touches the tracking table, `apply` either fails and the database is the one it
    -- was given, or `validate` accepts with a plan, `apply` succeeds, and the tracking table holds
    -- the rows it held followed by one row for each file of the plan, in order.
    pub apply-cases :
        (checksum : Str → Str) (read_faults : ReadFaults) (dialect : Option Str) (source : Source)
        (db : Database S)
        → ((e : MigrateError) × (apply run_script checksum read_faults faults now dialect source db
              ≡ (db, some e)))
          ⊎ ((plan : Plan) × (done : Database S) × (validate checksum read_faults dialect source db
                ≡ ok plan)
              × (apply run_script checksum read_faults faults now dialect source db ≡ (done, none))
              × (rows_of done ≡ rows_of db ++ map (applied_row now) plan.pending_migrations))
    unfolding apply
    apply-cases checksum read_faults dialect source db =
        let after_validate : Result MigrateError Plan → Database S × Option MigrateError =
          λ validated. elim validated [
            | err e ↦ (db, some e)
            | ok plan ↦ apply_plan run_script faults now plan db
          ] in
        elim (Result-cases (validate checksum read_faults dialect source db)) [
          | inr (e, f) ↦ inl (e, ap after_validate f)
          | inl (plan, p) ↦ elim (apply_plan-cases plan.pending_migrations db) [
            | inl (e, f) ↦ inl (e, ap after_validate p ∙ f)
            | inr (done, f, rows) ↦ inr (plan, done, p, ap after_validate p ∙ f, rows)
          ]
        ]
