-- ===== src/Migrate/Apply.antt =====
-- `ApplyPlan` and `Apply` of core/db/migrate/migrate.go. Running a script is an argument: it takes
-- the script and the database of the transaction to the changed one, or fails. The faults of the
-- other steps are given to the call. A commit that fails has not changed the database.
use kumacore.Prelude.{
  ℕ, Bool, false, Option, none, some, List, [], ◌∷◌, ◌++◌, Result, ok, err, ◌>>◌, fail_if,
  if◌then◌else◌, nat_eq, ◌||◌,
}
use kumacore.Prelude.Text.{Str}
use kumacore.Migrate.Types.{
  Source, MigrationFile, AppliedMigration, MigrateError, begin_failed, create_failed, commit_failed,
  run_failed, record_failed,
}
use kumacore.Migrate.Plan.{Database, Plan, ReadFaults, validate}

pub record ApplyFaults : Type 0 where
  pub at_begin : Bool
  pub at_create : Bool
  pub at_record : ℕ → Bool
  pub at_commit : Bool

-- CREATE TABLE IF NOT EXISTS
unfoldable pub create_tracking : {S : Type 0} → Database S → Database S
create_tracking db = record db {
  tracking = elim db.tracking [ none ↦ some [] | some rows ↦ some rows ];
}

unfoldable pub ensure_tracking_table :
    {S : Type 0} → ApplyFaults → Database S → Result MigrateError (Database S)
unfolding create_tracking
ensure_tracking_table faults db = fail_if faults.at_create create_failed >> ok (create_tracking db)

abbrev pub has_sequence : ℕ → List AppliedMigration → Bool
has_sequence n [] = false
has_sequence n (row ∷ rows) = nat_eq row.sequence n || has_sequence n rows

-- INSERT into the tracking table, whose primary key is the sequence
unfoldable pub insert_row : {S : Type 0} → AppliedMigration → Database S → Option (Database S)
insert_row row db = elim db.tracking [
  | none ↦ none
  | some rows ↦
      if has_sequence row.sequence rows
      then none
      else some (record db { tracking = some (rows ++ row ∷ []) })
]

unfoldable pub applied_row : ℕ → MigrationFile → AppliedMigration
applied_row now file = record {
  sequence = file.sequence;
  filename = file.filename;
  checksum_sha256 = file.checksum;
  applied_at_unix = now;
}

-- The transaction of a plan: the database as it is stored, and as the transaction sees it.
pub record PlanTransaction (S : Type 0) : Type 0 where
  pub stored : Database S
  pub working : Database S

-- BeginTx, Rollback and Commit
unfoldable pub begin_plan :
    {S : Type 0} → ApplyFaults → Database S → Result MigrateError (PlanTransaction S)
begin_plan faults db =
    if faults.at_begin then err begin_failed else ok (record { stored = db; working = db })

unfoldable pub rollback_plan : {S : Type 0} → PlanTransaction S → Database S
rollback_plan tx = tx.stored

unfoldable pub commit_plan :
    {S : Type 0} → ApplyFaults → PlanTransaction S → Database S × Option MigrateError
commit_plan faults tx =
    if faults.at_commit then (tx.stored, some commit_failed) else (tx.working, none)

-- What `ApplyPlan` does when its loop has ended or was left with an error.
unfoldable pub finish_plan :
    {S : Type 0}
    → ApplyFaults
    → PlanTransaction S × Option MigrateError
    → Database S × Option MigrateError
unfolding rollback_plan commit_plan
finish_plan faults (tx, some e) = (rollback_plan tx, some e)
finish_plan faults (tx, none) = commit_plan faults tx

module _ {S : Type 0} (run_script : Str → Database S → Option (Database S)) where
  unfoldable pub apply_migration :
      ApplyFaults → ℕ → MigrationFile → Database S → Result MigrateError (Database S)
  unfolding insert_row applied_row
  apply_migration faults now file db = elim (run_script file.sql db) [
    | none ↦ err (run_failed file.sequence)
    | some db1 ↦
        fail_if (faults.at_record file.sequence) (record_failed file.sequence)
        >> elim (insert_row (applied_row now file) db1) [
          | none ↦ err (record_failed file.sequence)
          | some db2 ↦ ok db2
        ]
  ]

  -- The loop of `ApplyPlan`; at an error the transaction has done what the files before have done.
  unfoldable pub apply_all :
      ApplyFaults
      → ℕ
      → List MigrationFile
      → PlanTransaction S
      → PlanTransaction S × Option MigrateError
  unfolding apply_migration
  apply_all faults now [] tx = (tx, none)
  apply_all faults now (file ∷ files) tx = elim (apply_migration faults now file tx.working) [
    | err e ↦ (tx, some e)
    | ok working ↦ apply_all faults now files (record tx { working = working })
  ]

  unfoldable pub in_transaction :
      ApplyFaults → ℕ → List MigrationFile → PlanTransaction S → Database S × Option MigrateError
  unfolding apply_all finish_plan
  in_transaction faults now files tx = elim (ensure_tracking_table faults tx.working) [
    | err e ↦ (rollback_plan tx, some e)
    | ok working ↦ finish_plan faults (apply_all faults now files (record tx { working = working }))
  ]

  unfoldable pub apply_plan : ApplyFaults → ℕ → Plan → Database S → Database S × Option MigrateError
  unfolding in_transaction begin_plan
  apply_plan faults now plan db = elim plan.pending_migrations [
    | [] ↦ (db, none)
    | file ∷ files ↦ elim (begin_plan faults db) [
      | err e ↦ (db, some e)
      | ok tx ↦ in_transaction faults now (file ∷ files) tx
    ]
  ]

  unfoldable pub apply :
      (Str → Str)
      → ReadFaults
      → ApplyFaults
      → ℕ
      → Option Str
      → Source
      → Database S
      → Database S × Option MigrateError
  unfolding apply_plan
  apply checksum read_faults faults now dialect source db =
      elim (validate checksum read_faults dialect source db) [
        | err e ↦ (db, some e)
        | ok plan ↦ apply_plan faults now plan db
      ]
