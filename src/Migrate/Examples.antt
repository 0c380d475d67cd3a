-- ===== src/Migrate/Examples.antt =====
-- A directory with two migrations, the first of them applied.
use kumacore.Prelude.{
  ℕ, false, Option, none, some, List, [], ◌∷◌, ◌++◌, length, map, ok, ◌≡◌, ◌↔◌, ◌⊎◌, refl, sym, ap,
}
use kumacore.Prelude.Text.{Str, str}
use kumacore.Migrate.Types.{Source, DirEntry, MigrationFile, AppliedMigration, MigrateError}
use kumacore.Prelude.Sort.{sort}
use kumacore.Migrate.Files.{read_entries, read_directory, file_before}
use kumacore.Migrate.Plan.{
  Applied, Database, Plan, no_read_faults, validate, validate_migrations, check_applied,
  applied_before,
}
use kumacore.Migrate.Apply.{ApplyFaults, applied_row, apply}
use kumacore.Migrate.Atomic.{rows_of, KeepsTracking, apply-cases}
use kumacore.Migrate.Sequence.{
  seq_count, in_range, file_sequence, row_sequence, read_directory_iff, check_applied_iff,
}
use kumacore.Migrate.Prefix.{IsPlan, validate_migrations_iff}

abbrev same : Str → Str
same text = text

abbrev two_entries : List DirEntry
two_entries =
    record { name = str "0002_b.sql"; is_dir = false; contents = some (str "B") }
    ∷ record { name = str "0001_a.sql"; is_dir = false; contents = some (str "A") }
    ∷ []

abbrev first_file : MigrationFile
first_file = record { sequence = 1; filename = str "0001_a.sql"; checksum = str "A"; sql = str "A" }

abbrev second_file : MigrationFile
second_file = record {
  sequence = 2;
  filename = str "0002_b.sql";
  checksum = str "B";
  sql = str "B";
}

read_directory_iff_example :
    (read_directory same (some two_entries) ≡ ok (first_file ∷ second_file ∷ [])) ↔ (
      (read : List MigrationFile) × (read_entries same two_entries ≡ ok read)
      × (first_file ∷ second_file ∷ [] ≡ sort file_before read)
      × ((n : ℕ) → seq_count file_sequence n read ≡ in_range 1 (length read) n))
read_directory_iff_example = read_directory_iff same two_entries (first_file ∷ second_file ∷ [])

abbrev first_row : AppliedMigration
first_row = record {
  sequence = 1;
  filename = str "0001_a.sql";
  checksum_sha256 = str "A";
  applied_at_unix = 7;
}

abbrev one_applied : Applied
one_applied = (1, first_row) ∷ []

check_applied_iff_example :
    (check_applied 1 (sort applied_before (first_row ∷ [])) ≡ none)
    ↔ ((n : ℕ) → seq_count row_sequence n (first_row ∷ []) ≡ in_range 1 1 n)
check_applied_iff_example = check_applied_iff (first_row ∷ [])

validate_migrations_iff_example :
    (validate_migrations (first_file ∷ second_file ∷ []) one_applied ≡ ok (second_file ∷ []))
    ↔ IsPlan (first_file ∷ second_file ∷ []) one_applied (second_file ∷ [])
validate_migrations_iff_example =
    validate_migrations_iff (first_file ∷ second_file ∷ []) (refl, (refl, tt)) one_applied
      (refl, tt) (second_file ∷ [])

-- A script is run by noting it in the database.
abbrev noted : Str → Database (List Str) → Option (Database (List Str))
noted script db = some (record db { content = db.content ++ script ∷ [] })

noted-KeepsTracking : KeepsTracking noted
noted-KeepsTracking script db done h =
    ap (λ ran. elim ran [ none ↦ db.tracking | some after ↦ after.tracking ]) (sym h)

abbrev no_faults : ApplyFaults
no_faults = record {
  at_begin = false;
  at_create = false;
  at_record = λ n. false;
  at_commit = false;
}

abbrev two_source : Source
two_source = record {
  backend = str "sqlite";
  file_system = some (λ directory. some two_entries);
  directory = str "sqlite";
}

abbrev one_db : Database (List Str)
one_db = record { tracking = some (first_row ∷ []); content = [] }

apply-cases_example :
    ((e : MigrateError) × (apply noted same no_read_faults no_faults 9
          (some (str "sqlite"))
          two_source
          one_db
        ≡ (one_db, some e)))
    ⊎ ((plan : Plan) × (done : Database (List Str)) × (validate same no_read_faults
            (some (str "sqlite"))
            two_source
            one_db
          ≡ ok plan)
        × (apply noted same no_read_faults no_faults 9 (some (str "sqlite")) two_source one_db
            ≡ (done, none))
        × (rows_of done ≡ rows_of one_db ++ map (applied_row 9) plan.pending_migrations))
apply-cases_example =
    apply-cases noted noted-KeepsTracking no_faults 9 same no_read_faults (some (str "sqlite"))
      two_source one_db
