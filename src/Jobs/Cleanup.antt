-- ===== src/Jobs/Cleanup.antt =====
-- `Cleanup` of app/jobs/backup: its three passes do not disturb one another.
use kumacore.Prelude.{
  ℕ, ◌-◌, Bool, true, false, ◌&&◌, not, none, some, List, [], ◌∷◌, filter, ◌≡◌, ◌⊎◌, refl, ap, ◌∙◌,
  arith, ◌==◌, leb, Bool-cases, Option-cases, inl, inr, All, length, take, Eq-nat,
}
use kumacore.Prelude.Text.{Str, Eq-str, str_eq_iff, str_eq}
use kumacore.Prelude.Sort.{sort, before_by, All-sort, All-take}
use kumacore.Jobs.Folder.{Items, IsFolder, remove_if, remove_chosen, no_fault}
use kumacore.Jobs.Backup.{
  BackupEntry, backup_date, dated, match_backup, is_stray, age_key, collect_backups,
  list_backups_by_suffix, keep_newest, prune_by_count, delete_stray_files, cleanup, CleanupFaults,
  suffix_daily, suffix_weekly, max_retained_per_suffix,
}
use kumacore.Jobs.Dates.{Date}
use kumacore.Jobs.Entries.{remove_chosen-IsFolder, keep_newest-IsFolder, keep_newest-has_file}
use kumacore.Jobs.Names.{IsBackupName, is_stray-IsBackupName}
use kumacore.Jobs.Directories.{keep_newest-directories}
use kumacore.Jobs.Removal.{
  has_file, directories, directories-remove_chosen, items_of, has_file-remove_chosen,
}
use kumacore.Jobs.Newest.{newest, IsRetained, newest-IsRetained}
use kumacore.Jobs.Retention.{
  other_name, without, collect-remove, collect-remove_backups, list-keep_newest,
}

-- Backups of one suffix are not of another.
abbrev Foreign : Str → BackupEntry → Type 0
Foreign suffix b = backup_date suffix b.name ≡ none

filter-collect :
    (suffix name : Str) (items : Items)
    → backup_date suffix name ≡ none
    → filter (other_name name) (collect_backups suffix items) ≡ collect_backups suffix items
unfolding collect_backups filter
filter-collect suffix name [] h = refl
filter-collect suffix name (item ∷ items) h = elim (Option-cases (backup_date suffix item.name)) [
  | inl e ↦ ground (arith, filter-collect suffix name items h)
  | inr (date, e) ↦ ground (
    arith,
    filter-collect suffix name items h,
    str_eq_iff item.name name,
    ap (backup_date suffix),
  )
]

without-Foreign :
    (suffix : Str) (bs : List BackupEntry) (items : Items)
    → All (Foreign suffix) bs
    → without bs (collect_backups suffix items) ≡ collect_backups suffix items
unfolding without
without-Foreign suffix [] items h = refl
without-Foreign suffix (b ∷ bs) items (h, hs) =
    ap (without bs) (filter-collect suffix b.name items h) ∙ without-Foreign suffix bs items hs

backup_date-foreign :
    (s t name : Str) {date : Date}
    → (s == t) ≡ false
    → backup_date t name ≡ some date
    → backup_date s name ≡ none
unfolding backup_date dated
backup_date-foreign s t name h e = elim (Option-cases (match_backup name)) [
  | inl p ↦ ground arith
  | inr ((digits, u), p) ↦ ground (arith, str_eq_iff u s, str_eq_iff u t, str_eq_iff s t)
]

module _ (s t : Str) (differ : (s == t) ≡ false) where
  collect-Foreign : (items : Items) → All (Foreign s) (collect_backups t items)
  unfolding collect_backups
  collect-Foreign [] = tt
  collect-Foreign (item ∷ items) = elim (Bool-cases item.is_dir) [
    | inl d ↦ rw d (collect-Foreign items)
    | inr f ↦ elim (Option-cases (backup_date t item.name)) [
      | inl e ↦ rw (f, e) (collect-Foreign items)
      | inr (date, e) ↦
          rw (f, e)
            (backup_date-foreign s t item.name {date = date} differ e, collect-Foreign items)
    ]
  ]

-- Pruning one suffix by number leaves the list of another as it is.
list-keep_other :
    (s t : Str) (keep : ℕ) (items : Items)
    → (s == t) ≡ false
    → list_backups_by_suffix s (keep_newest no_fault t keep items).0
      ≡ list_backups_by_suffix s items
unfolding keep_newest list_backups_by_suffix
list-keep_other s t keep items differ =
    let backups = list_backups_by_suffix t items in
    elim (Bool-cases (leb (length backups) keep)) [
      | inl few ↦ rw few refl
      | inr many ↦ rw many (
          ap (sort (before_by age_key)) (
            collect-remove_backups s (take (length backups - keep) backups) (items, 0)
            ∙ without-Foreign s (take (length backups - keep) backups) items (
                All-take (Foreign s) (length backups - keep) backups (
                  All-sort (Foreign s) (before_by age_key) (collect_backups t items)
                    (collect-Foreign s t differ items)))))
    ]

-- Removing strays leaves every list of backups as it is.
stray_date : (suffix name : Str) → is_stray name ≡ true → backup_date suffix name ≡ none
unfolding backup_date dated
stray_date suffix name h = ground arith

collect-remove_stray :
    (suffix : Str) (is_dir : Bool) (name : Str) (state : Items × ℕ)
    → collect_backups suffix (remove_if no_fault (not is_dir && is_stray name) name state).0
      ≡ collect_backups suffix state.0
unfolding remove_if
collect-remove_stray suffix true name state = refl
collect-remove_stray suffix false name state = elim (Bool-cases (is_stray name)) [
  | inr kept ↦ rw kept refl
  | inl gone ↦ rw gone (
      collect-remove suffix name state.0
      ∙ filter-collect suffix name state.0 (stray_date suffix name gone))
]

list-remove_strays :
    (suffix : Str) (rest : Items) (state : Items × ℕ)
    → collect_backups suffix (remove_chosen no_fault is_stray rest state).0
      ≡ collect_backups suffix state.0
unfolding remove_chosen remove_if
list-remove_strays suffix [] state = refl
list-remove_strays suffix (item ∷ rest) state =
    list-remove_strays suffix rest
      (remove_if no_fault (not item.is_dir && is_stray item.name) item.name state)
    ∙ collect-remove_stray suffix item.is_dir item.name state

list-strays :
    (suffix : Str) (items : Items)
    → list_backups_by_suffix suffix (remove_chosen no_fault is_stray items (items, 0)).0
      ≡ list_backups_by_suffix suffix items
unfolding list_backups_by_suffix
list-strays suffix items =
    ap (sort (before_by age_key)) (list-remove_strays suffix items (items, 0))

abbrev pub no_cleanup_faults : CleanupFaults
no_cleanup_faults = record {
  at_strays = false;
  at_daily = false;
  at_weekly = false;
  at_remove = no_fault;
}

suffixes_differ :
    ((suffix_daily == suffix_weekly) ≡ false) × ((suffix_weekly == suffix_daily) ≡ false)
unfolding str_eq
suffixes_differ = (refl, refl)

-- What `Cleanup` leaves when nothing fails.
abbrev pub cleaned : Items → Items
cleaned items =
    (keep_newest no_fault suffix_weekly max_retained_per_suffix
      (keep_newest no_fault suffix_daily max_retained_per_suffix
        (remove_chosen no_fault is_stray items (items, 0)).0).0).0

cleanup-cleaned :
    (items : Items) → cleanup no_cleanup_faults (some items) ≡ (some (cleaned items), none)
unfolding cleanup delete_stray_files prune_by_count
cleanup-cleaned items = refl

-- The lists of backups that `Cleanup` leaves.
module _ (items : Items) (h : IsFolder items) where
  list-cleaned_daily :
      list_backups_by_suffix suffix_daily (cleaned items)
      ≡ newest max_retained_per_suffix (list_backups_by_suffix suffix_daily items)
  list-cleaned_daily =
      let strays = remove_chosen no_fault is_stray items (items, 0) in
      let daily = keep_newest no_fault suffix_daily max_retained_per_suffix strays.0 in
      let whole = remove_chosen-IsFolder no_fault is_stray items (items, 0) h in
      list-keep_other suffix_daily suffix_weekly max_retained_per_suffix daily.0 suffixes_differ.0
      ∙ list-keep_newest suffix_daily max_retained_per_suffix strays.0 whole
      ∙ ap (newest max_retained_per_suffix) (list-strays suffix_daily items)

  list-cleaned_weekly :
      list_backups_by_suffix suffix_weekly (cleaned items)
      ≡ newest max_retained_per_suffix (list_backups_by_suffix suffix_weekly items)
  list-cleaned_weekly =
      let strays = remove_chosen no_fault is_stray items (items, 0) in
      let daily = keep_newest no_fault suffix_daily max_retained_per_suffix strays.0 in
      let whole = remove_chosen-IsFolder no_fault is_stray items (items, 0) h in
      list-keep_newest suffix_weekly max_retained_per_suffix daily.0
        (keep_newest-IsFolder suffix_daily max_retained_per_suffix strays.0 whole)
      ∙ ap (newest max_retained_per_suffix) (
          list-keep_other suffix_weekly suffix_daily max_retained_per_suffix strays.0
            suffixes_differ.1
          ∙ list-strays suffix_weekly items)

cleaned-has_file : (j : Str) (items : Items) → (has_file j (cleaned items) && is_stray j) ≡ false
cleaned-has_file j items = elim (Bool-cases (is_stray j)) [
  | inr fine ↦ ground arith
  | inl stray ↦
      let strays = remove_chosen no_fault is_stray items (items, 0) in
      let daily = keep_newest no_fault suffix_daily max_retained_per_suffix strays.0 in
      let gone : has_file j strays.0 ≡ false =
        ground (arith, has_file-remove_chosen no_fault is_stray j items) in
      let still =
        keep_newest-has_file j suffix_weekly max_retained_per_suffix daily.0
          (keep_newest-has_file j suffix_daily max_retained_per_suffix strays.0 gone) in
      rw still refl
]

cleaned-directories :
    (items : Items) → IsFolder items → directories (cleaned items) ≡ directories items
cleaned-directories items h =
    let strays = remove_chosen no_fault is_stray items (items, 0) in
    let daily = keep_newest no_fault suffix_daily max_retained_per_suffix strays.0 in
    let whole = remove_chosen-IsFolder no_fault is_stray items (items, 0) h in
    keep_newest-directories suffix_weekly max_retained_per_suffix daily.0
      (keep_newest-IsFolder suffix_daily max_retained_per_suffix strays.0 whole)
    ∙ keep_newest-directories suffix_daily max_retained_per_suffix strays.0 whole
    ∙ directories-remove_chosen no_fault is_stray items h

cleaned-IsBackupName :
    (j : Str) (items : Items) → (has_file j (cleaned items) ≡ false) ⊎ IsBackupName j
cleaned-IsBackupName j items = elim (Bool-cases (is_stray j)) [
  | inr fine ↦ inr (is_stray-IsBackupName j fine)
  | inl stray ↦ inl (ground (arith, cleaned-has_file j items))
]

-- `Cleanup` of a directory that can be read, where each name stands once and every removal works,
-- leaves three backups of each suffix, or as many as there were if they were fewer, and no backup
-- that it has removed is of a later day than one of its suffix that it has left. No file is left but
-- with a name of the form backup_, eight digits, an underscore, daily or weekly, and .zip. The
-- directories in it stay as they are, also the empty ones.
pub cleanup_retains :
    (items : Items) (j : Str)
    → IsFolder items
    → let (folder, failed) = cleanup no_cleanup_faults (some items) in
      (failed ≡ none)
      × IsRetained 3 suffix_daily items (items_of folder)
      × IsRetained 3 suffix_weekly items (items_of folder)
      × ((has_file j (items_of folder) ≡ false) ⊎ IsBackupName j)
      × (directories (items_of folder) ≡ directories items)
cleanup_retains items j h = rw (cleanup-cleaned items) (
  refl,
  newest-IsRetained 3 suffix_daily items (cleaned items) (list-cleaned_daily items h),
  newest-IsRetained 3 suffix_weekly items (cleaned items) (list-cleaned_weekly items h),
  cleaned-IsBackupName j items,
  cleaned-directories items h,
)
