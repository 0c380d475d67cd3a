-- ===== src/Jobs/Archive.antt =====
-- `createBackup` and `zipDataDir` of app/jobs/backup: what the archive holds.
use kumacore.Prelude.{
  Bool, true, false, ◌&&◌, List, [], ◌∷◌, filter, ◌≡◌, refl, arith, if◌then◌else◌, ◌==◌, Bool-cases,
  inl, inr,
}
use kumacore.Prelude.Text.{Str, Eq-str, str, str_eq, str_eq_iff, count}
use kumacore.Jobs.Backup.{
  extension_from, zip_data_dir, app_snapshot_name, worker_snapshot_name, archive_entries,
}
use kumacore.Jobs.Extensions.{is_skipped, is_raw, is_skipped-is_raw}

count-filter_skipped :
    (name : Str) (paths : List Str)
    → count name (zip_data_dir paths) ≡ (if is_skipped name then 0 else count name paths)
unfolding zip_data_dir filter count
count-filter_skipped name [] = ground arith
count-filter_skipped name (path ∷ paths) = elim (Bool-cases (path == name)) [
  | inl same ↦
      let e : path ≡ name = (str_eq_iff path name).0 same in
      rw e (ground (arith, count-filter_skipped name paths))
  | inr other ↦ ground (arith, count-filter_skipped name paths)
]

snapshots_skipped :
    (is_skipped app_snapshot_name ≡ true)
    × (is_skipped worker_snapshot_name ≡ true)
    × ((app_snapshot_name == worker_snapshot_name) ≡ false)
unfolding extension_from str_eq
snapshots_skipped = (refl, refl, refl)

skip_of :
    (name snapshot : Str)
    → (snapshot == name) ≡ true
    → is_skipped snapshot ≡ true
    → is_skipped name ≡ true
skip_of name snapshot e h = let p : snapshot ≡ name = (str_eq_iff snapshot name).0 e in rw (← p) h

count-archive_skipped :
    (has_worker : Bool) (paths : List Str) (name : Str)
    → count name (archive_entries has_worker paths) ≡ (
        if app_snapshot_name == name
        then 1
        else if has_worker && worker_snapshot_name == name
        then 1
        else if is_skipped name
        then 0
        else count name paths)
unfolding archive_entries count
count-archive_skipped has_worker paths name = ground (
  arith,
  count-filter_skipped name paths,
  skip_of name app_snapshot_name,
  skip_of name worker_snapshot_name,
  snapshots_skipped,
  str_eq_iff app_snapshot_name name,
  str_eq_iff worker_snapshot_name name,
)

-- The archive holds app.db once, and worker.db once if there is a worker: the snapshots. Of the data
-- directory it holds no file whose name ends in .db, .db-shm, .db-wal or .zip, and every other as
-- often as the walk finds it.
pub count-archive_entries :
    (has_worker : Bool) (paths : List Str) (name : Str)
    → count name (archive_entries has_worker paths) ≡ (
        if str "app.db" == name
        then 1
        else if has_worker && str "worker.db" == name
        then 1
        else if is_raw name
        then 0
        else count name paths)
count-archive_entries has_worker paths name =
    rw (← is_skipped-is_raw name) (count-archive_skipped has_worker paths name)
