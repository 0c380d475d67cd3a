-- ===== src/Migrate/Files.antt =====
-- `readMigrationFiles` of core/db/migrate/migrate.go.
use kumacore.Prelude.{
  ℕ, suc, Bool, true, false, ◌&&◌, ◌||◌, not, Option, none, some, List, [], ◌∷◌, Result, ok, err,
  ◌>>=◌, ◌>>◌, fail_if, if◌then◌else◌, ◌==◌, nat_eq, ltb,
}
use kumacore.Prelude.Text.{Str, Eq-str, str, str_lt, is_empty, has_prefix, trim_space, split}
use kumacore.Prelude.Sort.{sort}
use kumacore.Migrate.Types.{
  DirEntry, Source, MigrationFile, MigrateError, nil_file_system, empty_directory,
  invalid_directory, unreadable_directory, contains_subdirectory, unreadable_file,
  duplicate_sequence, sequence_hole,
}
use kumacore.Migrate.Filename.{parse_migration_filename, slash}

abbrev pub all_parts : (Str → Bool) → List Str → Bool
all_parts p [] = true
all_parts p (part ∷ parts) = p part && all_parts p parts

-- fs.ValidPath, on valid UTF-8
unfoldable pub valid_path : Str → Bool
valid_path directory =
    (directory == str ".")
    || all_parts (λ part. not (is_empty part) && not (part == str ".") && not (part == str ".."))
        (split slash directory)

module _ (checksum : Str → Str) where
  -- The loop's body behind the test for a leading dot.
  unfoldable pub read_entry : DirEntry → Result MigrateError MigrationFile
  read_entry entry = do
    fail_if entry.is_dir (contains_subdirectory entry.name)
    sequence ← parse_migration_filename entry.name
    elim entry.contents [
      | none ↦ err (unreadable_file entry.name)
      | some text ↦ ok (record {
        sequence = sequence;
        filename = entry.name;
        checksum = checksum text;
        sql = text;
      })
    ]

  unfoldable pub read_entries : List DirEntry → Result MigrateError (List MigrationFile)
  read_entries [] = ok []
  read_entries (entry ∷ entries) =
      let others = read_entries entries in
      if has_prefix entry.name (str ".")
      then others
      else read_entry entry >>= λ file. others >>= λ files. ok (file ∷ files)

-- The order of `sort.Slice`; names differ within a directory, so no two files tie.
unfoldable pub file_before : MigrationFile → MigrationFile → Bool
file_before left right =
    if nat_eq left.sequence right.sequence
    then str_lt left.filename right.filename
    else ltb left.sequence right.sequence

abbrev pub is_repeated : Option ℕ → ℕ → Bool
is_repeated none n = false
is_repeated (some m) n = nat_eq m n

-- The loop that compares each file with the one before it and with its position.
unfoldable pub check_sequences : ℕ → Option ℕ → List MigrationFile → Option MigrateError
check_sequences expected previous [] = none
check_sequences expected previous (file ∷ files) =
    let rest = check_sequences (suc expected) (some file.sequence) files in
    if is_repeated previous file.sequence
    then some (duplicate_sequence file.sequence)
    else if not (nat_eq file.sequence expected)
    then some (sequence_hole expected)
    else rest

unfoldable pub check_sorted : List MigrationFile → Result MigrateError (List MigrationFile)
unfolding check_sequences
check_sorted files = elim (check_sequences 1 none files) [ none ↦ ok files | some e ↦ err e ]

unfoldable pub read_directory :
    (Str → Str) → Option (List DirEntry) → Result MigrateError (List MigrationFile)
unfolding check_sorted
read_directory checksum none = err unreadable_directory
read_directory checksum (some entries) = do
  files ← read_entries checksum entries
  check_sorted (sort file_before files)

unfoldable pub read_migration_files :
    (Str → Str) → Source → Result MigrateError (List MigrationFile)
unfolding read_directory
read_migration_files checksum source = elim source.file_system [
  | none ↦ err nil_file_system
  | some file_system ↦
      let directory = trim_space source.directory in
      fail_if (is_empty directory) empty_directory
      >> fail_if (not (valid_path directory)) invalid_directory
      >> read_directory checksum (file_system directory)
]
