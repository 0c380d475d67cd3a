-- ===== src/Jobs/Examples.antt =====
-- A weekly backup and a log file of the second of January 2026, in a directory with a stray file.
use kumacore.Prelude.{
  ◌*◌, ◌+◌, true, false, ◌&&◌, not, none, some, [], ◌∷◌, ◌++◌, ℕ, ok, err, ◌≡◌, ◌⊎◌, length, take,
  refl, inr, arith, if◌then◌else◌, ◌==◌, ltb,
}
use kumacore.Prelude.Assoc.{lookup}
use kumacore.Prelude.Text.{Str, Eq-str, str, str_eq, count, has_suffix, trim_suffix}
use kumacore.Jobs.Dates.{
  Date, Moment, IsDate, days_in, is_leap, instant, day_number, day_nanos, parse_dashed,
  format_dashed,
}
use kumacore.Jobs.Folder.{Item, Items, IsFolder, no_fault}
use kumacore.Jobs.Backup.{
  suffix_daily, suffix_weekly, backup_name, backup_date, prune_by_date, cleanup, archive_entries,
  CreateFaults, create_backup, snapshot_failed, create_failed, zip_failed, close_failed,
}
use kumacore.Jobs.Logs.{
  log_name, log_suffix, LogWriter, write, write_failed, contents, delete_old_logs,
  log_retention_days,
}
use kumacore.Jobs.Stamps.{IsSuffix, backup_date-backup_name, parse_dashed-log_name}
use kumacore.Jobs.Removal.{
  has_file, directories, items_of, prune_by_date-backup_name, delete_old_logs-log_name,
}
use kumacore.Jobs.Names.{IsBackupName}
use kumacore.Jobs.Newest.{IsRetained}
use kumacore.Jobs.Cleanup.{cleanup_retains, no_cleanup_faults}
use kumacore.Jobs.Extensions.{is_raw}
use kumacore.Jobs.Archive.{count-archive_entries}
use kumacore.Jobs.Created.{others, files_of, archive, create_backup-cases}
use kumacore.Jobs.Writer.{IsWriter, write_lem}

abbrev second_of_january : Date
second_of_january = record { year = 2026; month = 1; day = 2 }

second_of_january-IsDate : IsDate second_of_january
unfolding days_in is_leap
second_of_january-IsDate = (omega arith, omega arith, omega arith, omega arith, omega arith)

weekly : IsSuffix suffix_weekly
weekly = inr refl

abbrev march : Moment
march = record { date = record { year = 2026; month = 3; day = 1 }; nanos = 7 }

abbrev file : Str → Item
file name = record { name = name; is_dir = false; entries = [] }

abbrev data_files : Items
data_files =
    file (str "backup_20260102_weekly.zip")
    ∷ record { name = str "empty"; is_dir = true; entries = [] }
    ∷ file (str "2026-01-02_app.log")
    ∷ file (str "notes")
    ∷ []

data_files-IsFolder : IsFolder data_files
unfolding str_eq
data_files-IsFolder = ((refl, (refl, (refl, tt))), ((refl, (refl, tt)), ((refl, tt), (tt, tt))))

abbrev full_disk : CreateFaults
full_disk = record {
  at_app_snapshot = false;
  at_worker_snapshot = false;
  at_create = false;
  at_zip = true;
  written = [];
  at_close = false;
  at_remove = false;
}

backup_date-backup_name_example :
    backup_date suffix_weekly (backup_name second_of_january suffix_weekly)
    ≡ (if suffix_weekly == suffix_weekly then some second_of_january else none)
backup_date-backup_name_example =
    backup_date-backup_name second_of_january suffix_weekly suffix_weekly second_of_january-IsDate
      weekly

parse_dashed-log_name_example :
    (has_suffix (log_name second_of_january) log_suffix ≡ true)
    × (parse_dashed (trim_suffix (log_name second_of_january) log_suffix) ≡ some second_of_january)
parse_dashed-log_name_example = parse_dashed-log_name second_of_january second_of_january-IsDate

prune_by_date-backup_name_example :
    let name = backup_name second_of_january suffix_weekly in
    let items' =
      items_of
        (prune_by_date false no_fault march suffix_weekly (28 * day_nanos) (some data_files)).0 in
    (has_file name items' ≡ (
      has_file name data_files
      && not (
          suffix_weekly == suffix_weekly
          && ltb (day_number second_of_january * day_nanos + 28 * day_nanos) (instant march)
          && not (no_fault name))))
    × (directories items' ≡ directories data_files)
prune_by_date-backup_name_example =
    prune_by_date-backup_name no_fault march suffix_weekly suffix_weekly (28 * day_nanos)
      second_of_january data_files second_of_january-IsDate weekly data_files-IsFolder

delete_old_logs-log_name_example :
    let name = log_name second_of_january in
    let items' = items_of (delete_old_logs false no_fault march (some data_files)).0 in
    (has_file name items' ≡ (
      has_file name data_files
      && not (
          ltb
            (day_number second_of_january * day_nanos + log_retention_days * day_nanos)
            (instant march)
          && not (no_fault name))))
    × (directories items' ≡ directories data_files)
delete_old_logs-log_name_example =
    delete_old_logs-log_name no_fault march second_of_january data_files second_of_january-IsDate
      data_files-IsFolder

cleanup_retains_example :
    let (folder, failed) = cleanup no_cleanup_faults (some data_files) in
    (failed ≡ none)
    × IsRetained 3 suffix_daily data_files (items_of folder)
    × IsRetained 3 suffix_weekly data_files (items_of folder)
    × ((has_file (str "notes") (items_of folder) ≡ false) ⊎ IsBackupName (str "notes"))
    × (directories (items_of folder) ≡ directories data_files)
cleanup_retains_example = cleanup_retains data_files (str "notes") data_files-IsFolder

count-archive_entries_example :
    count (str "app.db") (archive_entries true (str "app.db" ∷ str "media/a.png" ∷ [])) ≡ (
      if str "app.db" == str "app.db"
      then 1
      else if true && str "worker.db" == str "app.db"
      then 1
      else if is_raw (str "app.db")
      then 0
      else count (str "app.db") (str "app.db" ∷ str "media/a.png" ∷ []))
count-archive_entries_example =
    count-archive_entries true (str "app.db" ∷ str "media/a.png" ∷ []) (str "app.db")

create_backup-cases_example :
    let name = backup_name second_of_january suffix_weekly in
    let (folder, result) =
      create_backup full_disk
        (record { date = second_of_january; nanos = 0 })
        true
        []
        suffix_weekly
        (some data_files) in
    let items' = items_of folder in
    (others name items' ≡ others name data_files)
    × (((result ≡ ok name) × (files_of name items' ≡ archive name (archive_entries true []) ∷ []))
        ⊎ (((result ≡ err snapshot_failed) ⊎ (result ≡ err create_failed)) × (items' ≡ data_files))
        ⊎ (((result ≡ err zip_failed) ⊎ (result ≡ err close_failed))
            × ((has_file name items' ≡ false) ⊎ (full_disk.at_remove ≡ true))))
create_backup-cases_example =
    create_backup-cases full_disk (record { date = second_of_january; nanos = 0 }) true []
      suffix_weekly data_files

abbrev writer : LogWriter
writer = record { date = format_dashed second_of_january; file = log_name second_of_january }

writer_named : IsWriter writer
unfolding log_name
writer_named = record { named = refl }

write_lem_example :
    let ((writer', files'), result) = write false (some 2) march.date (str "hello") (writer, []) in
    IsWriter writer'
    × (writer'.date ≡ format_dashed march.date)
    × (((result ≡ ok (length (str "hello")))
          × (contents (lookup (log_name march.date) files')
              ≡ contents (lookup (log_name march.date) [])
                ++ (if writer'.file == log_name march.date then str "hello" ∷ [] else [])))
        ⊎ ((n : ℕ) × (some 2 ≡ some n)
            × (result ≡ err write_failed)
            × (contents (lookup (log_name march.date) files')
                ≡ contents (lookup (log_name march.date) [])
                  ++ (if writer'.file == log_name march.date
                      then take n (str "hello") ∷ []
                      else []))))
write_lem_example =
    write_lem false (some 2) march.date (str "hello") writer [] (log_name march.date) writer_named
