-- ===== src/Migrate/Types.antt =====
-- The types of core/db/migrate/migrate.go. The file system is a function from directories to their
-- entries, and the checksum of the package crypto/sha256 is an argument where it is used.
use kumacore.Prelude.{ℕ, Bool, Option, List}
use kumacore.Prelude.Text.{Str}

-- What `fs.ReadDir` and `fs.ReadFile` give for an entry; `none` is a file that cannot be read.
pub record DirEntry : Type 0 where
  pub name : Str
  pub is_dir : Bool
  pub contents : Option Str

abbrev pub FileSystem : Type 0
FileSystem = Str → Option (List DirEntry)

-- A nil file system is `none`.
pub record Source : Type 0 where
  pub backend : Str
  pub file_system : Option FileSystem
  pub directory : Str

pub record MigrationFile : Type 0 where
  pub sequence : ℕ
  pub filename : Str
  pub checksum : Str
  pub sql : Str

pub record AppliedMigration : Type 0 where
  pub sequence : ℕ
  pub filename : Str
  pub checksum_sha256 : Str
  pub applied_at_unix : ℕ

pub data MigrateError : Type 0 where
  nil_dialect empty_backend backend_mismatch : MigrateError
  nil_file_system empty_directory invalid_directory unreadable_directory : MigrateError
  contains_subdirectory invalid_filename unreadable_file : Str → MigrateError
  duplicate_sequence sequence_hole applied_hole : ℕ → MigrateError
  filename_mismatch checksum_mismatch missing_file : ℕ → MigrateError
  query_failed scan_failed begin_failed create_failed commit_failed : MigrateError
  run_failed record_failed : ℕ → MigrateError
