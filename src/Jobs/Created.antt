-- ===== src/Jobs/Created.antt =====
-- `createBackup` of app/jobs/backup: what each outcome does to the directory of the backups.
use kumacore.Prelude.{
  Bool, true, false, ◌&&◌, ◌||◌, not, some, List, [], ◌∷◌, filter, ok, err, ◌≡◌, ◌⊎◌, inl, inr,
  refl, arith, ◌==◌, Bool-cases,
}
use kumacore.Prelude.Text.{Str, Eq-str, str_eq_iff}
use kumacore.Jobs.Dates.{Moment}
use kumacore.Jobs.Folder.{Item, Items, is_file, remove, has_dir}
use kumacore.Jobs.Backup.{
  archive_entries, CreateFaults, create_backup, write_backup, backup_name, put, undo,
  snapshot_failed, create_failed, zip_failed, close_failed,
}
use kumacore.Jobs.Removal.{has_file, items_of, has_file-remove}

-- The entries of other names, and the files of a name.
unfoldable pub others : Str → Items → Items
unfolding filter
others name items = filter (λ item. not (item.name == name)) items

unfoldable pub files_of : Str → Items → Items
unfolding filter
files_of name items = filter (is_file name) items

abbrev pub archive : Str → List Str → Item
archive name entries = record { name = name; is_dir = false; entries = entries }

others-remove : (name : Str) (items : Items) → others name (remove name items) ≡ others name items
unfolding others remove filter
others-remove name [] = refl
others-remove name (item ∷ items) = ground (arith, others-remove name items)

others-put :
    (name : Str) (entries : List Str) (items : Items)
    → others name (put name entries items) ≡ others name items
unfolding others put filter
others-put name entries [] = ground (arith, str_eq_iff name name)
others-put name entries (item ∷ items) = ground (arith, others-put name entries items)

files_of-put :
    (name : Str) (entries : List Str) (items : Items)
    → files_of name (put name entries items) ≡ archive name entries ∷ []
unfolding files_of put filter
files_of-put name entries [] = ground (arith, str_eq_iff name name)
files_of-put name entries (item ∷ items) = ground (arith, files_of-put name entries items)

has_file-undo :
    (faults : CreateFaults) (name : Str) (items : Items)
    → (has_file name (undo faults name items) ≡ false) ⊎ (faults.at_remove ≡ true)
unfolding undo
has_file-undo faults name items = elim (Bool-cases faults.at_remove) [
  | inl stays ↦ inr stays
  | inr works ↦
      let gone : has_file name (remove name items) ≡ false =
        ground (arith, has_file-remove name name items, str_eq_iff name name) in
      inl (rw works gone)
]

others-undo :
    (faults : CreateFaults) (name : Str) (entries : List Str) (items : Items)
    → others name (undo faults name (put name entries items)) ≡ others name items
unfolding undo
others-undo faults name entries items =
    ground (arith, others-remove name (put name entries items), others-put name entries items)

module _ (faults : CreateFaults) (now : Moment) (has_worker : Bool) (paths : List Str)
    (suffix : Str) (items : Items) where
  write_backup-cases :
      let name = backup_name now.date suffix in
      let entries = archive_entries has_worker paths in
      let (items', result) = write_backup faults now has_worker paths suffix items in
      (others name items' ≡ others name items)
      × (((result ≡ ok name) × (files_of name items' ≡ archive name entries ∷ []))
          ⊎ ((result ≡ err create_failed) × (items' ≡ items))
          ⊎ (((result ≡ err zip_failed) ⊎ (result ≡ err close_failed))
              × ((has_file name items' ≡ false) ⊎ (faults.at_remove ≡ true))))
  unfolding write_backup
  write_backup-cases =
      let name = backup_name now.date suffix in
      let entries = archive_entries has_worker paths in
      elim (Bool-cases (faults.at_create || has_dir name items)) [
        | inl bad ↦ rw (write_backup, bad) (refl, inr (inl (refl, refl)))
        | inr fine ↦ elim (Bool-cases faults.at_zip) [
          | inl bad ↦
              rw (write_backup, fine, bad)
                (
                  others-undo faults name faults.written items,
                  inr (inr (inl refl, has_file-undo faults name (put name faults.written items))),
                )
          | inr fine1 ↦ elim (Bool-cases faults.at_close) [
            | inl bad ↦
                rw (write_backup, fine, fine1, bad)
                  (
                    others-undo faults name entries items,
                    inr (inr (inr refl, has_file-undo faults name (put name entries items))),
                  )
            | inr fine2 ↦
                rw (write_backup, fine, fine1, fine2)
                  (others-put name entries items, inl (refl, files_of-put name entries items))
          ]
        ]
      ]

  -- A backup that succeeds gives the name of the day and its suffix, and the directory has exactly one
  -- file of that name, with the entries of the archive. A failed snapshot or a file that cannot be
  -- created leaves the directory as it was. If writing or closing the archive fails, and removing it
  -- works, no file of that name is left, also if there was one before. What has another name stays in
  -- every case.
  pub create_backup-cases :
      let name = backup_name now.date suffix in
      let (folder, result) = create_backup faults now has_worker paths suffix (some items) in
      let items' = items_of folder in
      (others name items' ≡ others name items)
      × (((result ≡ ok name)
            × (files_of name items' ≡ archive name (archive_entries has_worker paths) ∷ []))
          ⊎ (((result ≡ err snapshot_failed) ⊎ (result ≡ err create_failed)) × (items' ≡ items))
          ⊎ (((result ≡ err zip_failed) ⊎ (result ≡ err close_failed))
              × ((has_file name items' ≡ false) ⊎ (faults.at_remove ≡ true))))
  unfolding create_backup
  create_backup-cases =
      elim (Bool-cases (faults.at_app_snapshot || (has_worker && faults.at_worker_snapshot))) [
        | inl bad ↦ rw bad (refl, inr (inl (inl refl, refl)))
        | inr fine ↦
            let (same, outcome) = write_backup-cases in
            rw fine (
              same,
              elim outcome [
                | inl done ↦ inl done
                | inr (inl (e, h)) ↦ inr (inl (inr e, h))
                | inr (inr undone) ↦ inr (inr undone)
              ],
            )
      ]
