-- ===== src/Migrate/Plan.antt =====
-- `Validate` of core/db/migrate/migrate.go: from the files and the tracking table to a plan.
use kumacore.Prelude.{
  ℕ, suc, Bool, true, false, not, Option, none, some, List, [], ◌∷◌, ◌++◌, Result, ok, err, ◌>>=◌,
  ◌>>◌, fail_if, if◌then◌else◌, ◌==◌, nat_eq, ltb, length, Eq-nat,
}
use kumacore.Prelude.Assoc.{Assoc, lookup, insert}
use kumacore.Prelude.Text.{Str, Eq-str, str_lt, is_empty, trim_space}
use kumacore.Migrate.Types.{
  Source, MigrationFile, AppliedMigration, MigrateError, nil_dialect, empty_backend,
  backend_mismatch, applied_hole, filename_mismatch, checksum_mismatch, missing_file, query_failed,
  scan_failed,
}
use kumacore.Prelude.Sort.{sort}
use kumacore.Migrate.Files.{read_migration_files}

-- The database as migrations see it: the tracking table, if it is there, and the rest.
pub record Database (S : Type 0) : Type 0 where
  pub tracking : Option (List AppliedMigration)
  pub content : S

-- `Plan`
pub record Plan : Type 0 where
  pub pending_migrations : List MigrationFile

unfoldable pub pending_count : Plan → ℕ
pending_count plan = length plan.pending_migrations

-- The errors of the driver while the tracking table is read.
pub record ReadFaults : Type 0 where
  pub at_exists : Bool
  pub at_query : Bool
  pub at_rows : Bool

abbrev pub no_read_faults : ReadFaults
no_read_faults = record { at_exists = false; at_query = false; at_rows = false }

abbrev pub Applied : Type 0
Applied = Assoc ℕ AppliedMigration

-- The loop of `loadAppliedMigrations`.
unfoldable pub collect_applied : Applied → List AppliedMigration → Applied
collect_applied applied [] = applied
collect_applied applied (row ∷ rows) = collect_applied (insert row.sequence row applied) rows

unfoldable pub load_applied_migrations :
    {S : Type 0} → ReadFaults → Database S → Result MigrateError Applied
unfolding collect_applied
load_applied_migrations faults db = fail_if faults.at_exists query_failed >> elim db.tracking [
  | none ↦ ok []
  | some rows ↦
      fail_if faults.at_query query_failed
      >> fail_if faults.at_rows scan_failed
      >> ok (collect_applied [] rows)
]

unfoldable pub applied_before : AppliedMigration → AppliedMigration → Bool
applied_before left right =
    if nat_eq left.sequence right.sequence
    then str_lt left.filename right.filename
    else ltb left.sequence right.sequence

-- The values of a map, in the order of its entries.
unfoldable pub values : Applied → List AppliedMigration
values [] = []
values ((sequence, row) ∷ applied) = row ∷ values applied

unfoldable pub check_applied : ℕ → List AppliedMigration → Option MigrateError
check_applied expected [] = none
check_applied expected (row ∷ rows) =
    let rest = check_applied (suc expected) rows in
    if not (nat_eq row.sequence expected) then some (applied_hole expected) else rest

unfoldable pub validate_applied_migrations : Applied → Option MigrateError
validate_applied_migrations applied = check_applied 1 (sort applied_before (values applied))

-- What a file is found to be.
pub data Standing : Type 0 where
  already_applied : Standing
  still_pending : Standing

unfoldable pub compare_file : MigrationFile → Option AppliedMigration → Result MigrateError Standing
compare_file file none = ok still_pending
compare_file file (some existing) = do
  fail_if (not (existing.filename == file.filename)) (filename_mismatch file.sequence)
  fail_if (not (existing.checksum_sha256 == file.checksum)) (checksum_mismatch file.sequence)
  ok already_applied

abbrev pub Planned : Type 0
Planned = Assoc ℕ MigrationFile

abbrev pub and_pending : Standing → MigrationFile → List MigrationFile → List MigrationFile
and_pending already_applied file pending = pending
and_pending still_pending file pending = pending ++ file ∷ []

-- The loop over the files, with its two accumulators.
unfoldable pub plan_files :
    Applied
    → List MigrationFile
    → Planned
    → List MigrationFile
    → Result MigrateError (List MigrationFile × Planned)
plan_files applied pending planned [] = ok (pending, planned)
plan_files applied pending planned (file ∷ files) =
    compare_file file (lookup file.sequence applied) >>= λ standing.
    plan_files applied (and_pending standing file pending) (insert file.sequence file planned) files

abbrev pub is_planned : Option MigrationFile → Bool
is_planned none = false
is_planned (some file) = true

-- The loop that looks for applied migrations that have no file.
unfoldable pub check_missing : Planned → Applied → Option MigrateError
check_missing planned [] = none
check_missing planned ((sequence, row) ∷ applied) =
    let rest = check_missing planned applied in
    if is_planned (lookup sequence planned) then rest else some (missing_file row.sequence)

abbrev pub unless_error : {A : Type 0} → Option MigrateError → A → Result MigrateError A
unless_error none a = ok a
unless_error (some e) a = err e

unfoldable pub validate_migrations :
    List MigrationFile → Applied → Result MigrateError (List MigrationFile)
validate_migrations files applied =
    unless_error (validate_applied_migrations applied) tt
    >> (plan_files applied [] [] files >>= λ result.
        unless_error (check_missing result.1 applied) result.0)

-- `Validate`; a nil dialect is `none`, and another one its name.
unfoldable pub validate :
    {S : Type 0}
    → (Str → Str)
    → ReadFaults
    → Option Str
    → Source
    → Database S
    → Result MigrateError Plan
validate checksum faults dialect source db = elim dialect [
  | none ↦ err nil_dialect
  | some dialect_name ↦
      fail_if (is_empty (trim_space source.backend)) empty_backend
      >> fail_if (not (source.backend == dialect_name)) backend_mismatch
      >> (read_migration_files checksum source >>= λ files.
          load_applied_migrations faults db >>= λ applied.
          validate_migrations files applied >>= λ pending.
          ok (record { pending_migrations = pending }))
]
