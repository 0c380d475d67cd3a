-- ===== src/Jobs/Backup.antt =====
-- app/jobs/backup: `createBackup`, the retention by age and by number, and the removal of strays. A
-- fault is given to each step that can fail; the archive of a file is the list of its entries' names.
use kumacore.Prelude.{
  ℕ, ◌+◌, ◌-◌, ◌*◌, Eq-nat, Bool, true, false, ◌&&◌, ◌||◌, not, Option, none, some, List, [], ◌∷◌,
  ◌++◌, filter, Result, ok, err, if◌then◌else◌, ◌==◌, ltb, leb, length, take, drop, ◌≡◌, refl,
}
use kumacore.Prelude.Text.{Str, Eq-str, str, str_eq, has_prefix}
use kumacore.Prelude.Sort.{sort, before_by}
use kumacore.Jobs.Dates.{
  Date, Moment, day_number, day_nanos, instant, format_compact, parse_compact, read_digits,
  read_byte,
}
use kumacore.Jobs.Folder.{
  Items, Folder, is_file, has_dir, pass, and_then, error_of, remove, remove_if, remove_chosen,
}

pub data BackupError : Type 0 where
  unknown_suffix : Str → BackupError
  snapshot_failed create_failed zip_failed close_failed read_failed : BackupError

abbrev pub suffix_daily : Str
suffix_daily = str "daily"

abbrev pub suffix_weekly : Str
suffix_weekly = str "weekly"

abbrev pub max_retained_per_suffix : ℕ
max_retained_per_suffix = 3

-- `suffixMaxAge`, in nanoseconds
unfoldable pub suffix_max_age : Str → Result BackupError ℕ
suffix_max_age suffix =
    if suffix == suffix_daily
    then ok ((max_retained_per_suffix + 1) * day_nanos)
    else if suffix == suffix_weekly
    then ok ((max_retained_per_suffix + 1) * 7 * day_nanos)
    else err (unknown_suffix suffix)

abbrev pub backup_prefix : Str
backup_prefix = str "backup_"

abbrev pub zip_suffix : Str
zip_suffix = str ".zip"

unfoldable pub backup_name : Date → Str → Str
backup_name date suffix = backup_prefix ++ (format_compact date ++ b'_' ∷ (suffix ++ zip_suffix))

-- The last group of the pattern, with what follows it.
unfoldable pub match_suffix : Str → Option Str
match_suffix s =
    if s == suffix_daily ++ zip_suffix
    then some suffix_daily
    else if s == suffix_weekly ++ zip_suffix
    then some suffix_weekly
    else none

unfoldable pub match_date : Str → Option (Str × Str)
match_date s = elim (read_digits 8 0 s) [
  | none ↦ none
  | some (value, s1) ↦ elim (read_byte b'_' s1) [
    | none ↦ none
    | some s2 ↦ elim (match_suffix s2) [ none ↦ none | some suffix ↦ some (take 8 s, suffix) ]
  ]
]

-- `backupFilenamePattern`: its two groups, the date and the suffix
unfoldable pub match_backup : Str → Option (Str × Str)
unfolding has_prefix
match_backup name =
    if has_prefix name backup_prefix then match_date (drop (length backup_prefix) name) else none

-- The tests that `pruneByDate` and `listBackupsBySuffix` share: the date of a backup of a suffix.
unfoldable pub dated : Str → Option (Str × Str) → Option Date
dated suffix none = none
dated suffix (some (digits, s)) = if s == suffix then parse_compact digits else none

unfoldable pub backup_date : Str → Str → Option Date
unfolding dated match_backup
backup_date suffix name = dated suffix (match_backup name)

-- backupDate.Before(now.Add(-maxAge))
abbrev pub is_before : Moment → ℕ → Option Date → Bool
is_before now max_age none = false
is_before now max_age (some date) = ltb (day_number date * day_nanos + max_age) (instant now)

-- `pruneByDate`; the first flag says that the directory cannot be read
unfoldable pub prune_by_date :
    Bool → (Str → Bool) → Moment → Str → ℕ → Folder → Folder × Result BackupError ℕ
unfolding remove_chosen backup_date
prune_by_date read_fails fault now suffix max_age folder =
    pass read_failed read_fails
      (λ items.
        remove_chosen fault (λ name. is_before now max_age (backup_date suffix name)) items
          (items, 0))
      folder

abbrev pub is_none : {A : Type 0} → Option A → Bool
is_none none = true
is_none (some a) = false

abbrev pub is_stray : Str → Bool
is_stray name = is_none (match_backup name)

-- `deleteStrayFiles`
unfoldable pub delete_stray_files : Bool → (Str → Bool) → Folder → Folder × Result BackupError ℕ
unfolding remove_chosen match_backup
delete_stray_files read_fails fault folder =
    pass read_failed read_fails (λ items. remove_chosen fault is_stray items (items, 0)) folder

-- `backupEntry`
pub record BackupEntry : Type 0 where
  pub name : Str
  pub date : Date

abbrev pub and_dated : Str → Option Date → List BackupEntry → List BackupEntry
and_dated name none backups = backups
and_dated name (some date) backups = record { name = name; date = date } ∷ backups

-- The loop of `listBackupsBySuffix`.
unfoldable pub collect_backups : Str → Items → List BackupEntry
unfolding backup_date
collect_backups suffix [] = []
collect_backups suffix (item ∷ items) =
    let rest = collect_backups suffix items in
    if item.is_dir then rest else and_dated item.name (backup_date suffix item.name) rest

abbrev pub age_key : BackupEntry → ℕ
age_key backup = day_number backup.date

unfoldable pub list_backups_by_suffix : Str → Items → List BackupEntry
unfolding collect_backups sort
list_backups_by_suffix suffix items = sort (before_by age_key) (collect_backups suffix items)

-- The loop of `pruneByCount`.
unfoldable pub remove_backups : (Str → Bool) → List BackupEntry → Items × ℕ → Items × ℕ
unfolding remove_if
remove_backups fault [] state = state
remove_backups fault (backup ∷ backups) state =
    remove_backups fault backups (remove_if fault true backup.name state)

unfoldable pub keep_newest : (Str → Bool) → Str → ℕ → Items → Items × ℕ
unfolding remove_backups list_backups_by_suffix
keep_newest fault suffix keep items =
    let backups = list_backups_by_suffix suffix items in
    if leb (length backups) keep
    then (items, 0)
    else remove_backups fault (take (length backups - keep) backups) (items, 0)

-- `pruneByCount`
unfoldable pub prune_by_count :
    Bool → (Str → Bool) → Str → ℕ → Folder → Folder × Result BackupError ℕ
unfolding keep_newest
prune_by_count read_fails fault suffix keep folder =
    pass read_failed read_fails (keep_newest fault suffix keep) folder

pub record CleanupFaults : Type 0 where
  pub at_strays : Bool
  pub at_daily : Bool
  pub at_weekly : Bool
  pub at_remove : Str → Bool

-- `Cleanup`
unfoldable pub cleanup : CleanupFaults → Folder → Folder × Option BackupError
unfolding delete_stray_files prune_by_count
cleanup faults folder =
    let (folder', result) =
      and_then
        (and_then (delete_stray_files faults.at_strays faults.at_remove folder)
          (prune_by_count faults.at_daily faults.at_remove suffix_daily max_retained_per_suffix))
        (prune_by_count faults.at_weekly faults.at_remove suffix_weekly max_retained_per_suffix) in
    (folder', error_of result)

-- The files of the data directory, as the walk finds them: their paths from it.
abbrev pub one_of : Str → List Str → Bool
one_of s [] = false
one_of s (t ∷ ts) = s == t || one_of s ts

abbrev pub skip_extensions : List Str
skip_extensions = str ".db" ∷ str ".db-shm" ∷ str ".db-wal" ∷ str ".zip" ∷ []

-- filepath.Ext: from the last dot of the last element on
unfoldable pub extension_from : Str → Str → Str
extension_from found [] = found
extension_from found (c ∷ s) =
    extension_from (if c == b'.' then c ∷ s else if c == b'/' then [] else found) s

unfoldable pub zip_data_dir : List Str → List Str
unfolding filter extension_from
zip_data_dir paths = filter (λ path. not (one_of (extension_from [] path) skip_extensions)) paths

abbrev pub app_snapshot_name : Str
app_snapshot_name = str "app.db"

abbrev pub worker_snapshot_name : Str
worker_snapshot_name = str "worker.db"

unfoldable pub archive_entries : Bool → List Str → List Str
unfolding zip_data_dir
archive_entries has_worker paths =
    app_snapshot_name
    ∷ ((if has_worker then worker_snapshot_name ∷ [] else []) ++ zip_data_dir paths)

-- The steps of `createBackup` that fail, and the entries that an archive has when writing it fails.
pub record CreateFaults : Type 0 where
  pub at_app_snapshot : Bool
  pub at_worker_snapshot : Bool
  pub at_create : Bool
  pub at_zip : Bool
  pub written : List Str
  pub at_close : Bool
  pub at_remove : Bool

-- os.Create truncates a file that is there.
unfoldable pub put : Str → List Str → Items → Items
unfolding filter
put name entries items =
    filter (λ item. not (is_file name item)) items
    ++ record { name = name; is_dir = false; entries = entries } ∷ []

-- os.Remove of the file of a backup that failed, whose error is ignored.
unfoldable pub undo : CreateFaults → Str → Items → Items
unfolding remove
undo faults name items = if faults.at_remove then items else remove name items

-- The steps of `createBackup` on a directory that is there; `os.Create` fails on a directory.
unfoldable pub write_backup :
    CreateFaults → Moment → Bool → List Str → Str → Items → Items × Result BackupError Str
unfolding backup_name archive_entries undo put has_dir
write_backup faults now has_worker paths suffix items =
    let name = backup_name now.date suffix in
    if faults.at_create || has_dir name items
    then (items, err create_failed)
    else if faults.at_zip
    then (undo faults name (put name faults.written items), err zip_failed)
    else if faults.at_close
    then (undo faults name (put name (archive_entries has_worker paths) items), err close_failed)
    else (put name (archive_entries has_worker paths) items, ok name)

-- `createBackup`; `os.Create` fails in a directory that is missing
unfoldable pub create_backup :
    CreateFaults → Moment → Bool → List Str → Str → Folder → Folder × Result BackupError Str
unfolding write_backup
create_backup faults now has_worker paths suffix folder =
    if faults.at_app_snapshot || (has_worker && faults.at_worker_snapshot)
    then (folder, err snapshot_failed)
    else elim folder [
      | none ↦ (none, err create_failed)
      | some items ↦
          let (items', result) = write_backup faults now has_worker paths suffix items in
          (some items', result)
    ]

-- What the two parts of `Run` need: the moment and the faults of each.
pub record RunCall : Type 0 where
  pub created : Moment
  pub pruned : Moment
  pub create_faults : CreateFaults
  pub read_fails : Bool
  pub remove_fault : Str → Bool

-- `Run`
unfoldable pub run : RunCall → Bool → List Str → Str → Folder → Folder × Option BackupError
unfolding suffix_max_age create_backup prune_by_date
run call has_worker paths suffix folder = elim (suffix_max_age suffix) [
  | err e ↦ (folder, some e)
  | ok max_age ↦
      let (folder', created) =
        create_backup call.create_faults call.created has_worker paths suffix folder in
      elim created [
        | err e ↦ (folder', some e)
        | ok name ↦
            let (folder'', result) =
              prune_by_date call.read_fails call.remove_fault call.pruned suffix max_age folder' in
            (folder'', error_of result)
      ]
]

matches_weekly :
    match_backup (str "backup_20260102_weekly.zip") ≡ some (str "20260102", str "weekly")
unfolding match_backup match_date match_suffix read_digits read_byte str_eq
matches_weekly = refl
