-- ===== src/Jobs/Directories.antt =====
-- The retention by number of app/jobs/backup leaves the directories as they are.
use kumacore.Prelude.{
  ℕ, ◌-◌, ◌&&◌, true, false, not, [], ◌∷◌, List, ◌≡◌, refl, sym, ap, ◌∙◌, arith, leb, Bool-cases,
  inl, inr, All, length, take,
}
use kumacore.Prelude.Text.{Str}
use kumacore.Prelude.Sort.{before_by, All-sort, All-take}
use kumacore.Jobs.Folder.{Item, Items, IsFolder, has_dir, remove_if, no_fault}
use kumacore.Jobs.Backup.{
  BackupEntry, backup_date, age_key, collect_backups, list_backups_by_suffix, remove_backups,
  keep_newest,
}
use kumacore.Jobs.Removal.{
  directories, directories-remove_if, has_dir-directories, IsClear, IsFolder-IsClear,
}
use kumacore.Jobs.Newest.{collect_step}

-- No directory has the name of a backup in the list.
abbrev NoDirectory : Items → BackupEntry → Type 0
NoDirectory items b = has_dir b.name items ≡ false

clear_name :
    (item : Item) (whole : Items)
    → (not item.is_dir && has_dir item.name whole) ≡ false
    → item.is_dir ≡ false
    → has_dir item.name whole ≡ false
clear_name item whole c f = ground arith

collect-NoDirectory :
    (suffix : Str) (whole rest : Items)
    → IsClear rest whole
    → All (NoDirectory whole) (collect_backups suffix rest)
unfolding collect_backups
collect-NoDirectory suffix whole [] c = tt
collect-NoDirectory suffix whole (item ∷ rest) (c, cs) =
    collect_step (λ n. has_dir n whole ≡ false) item.is_dir item.name (backup_date suffix item.name)
      (collect_backups suffix rest) (clear_name item whole c)
      (collect-NoDirectory suffix whole rest cs)

remove_backups-directories :
    (whole : Items) (bs : List BackupEntry) (state : Items × ℕ)
    → All (NoDirectory whole) bs
    → directories state.0 ≡ directories whole
    → directories (remove_backups no_fault bs state).0 ≡ directories whole
unfolding remove_backups
remove_backups-directories whole [] state n h = h
remove_backups-directories whole (b ∷ bs) state (n, ns) h =
    let same : has_dir b.name state.0 ≡ has_dir b.name whole =
      sym (has_dir-directories b.name state.0)
      ∙ ap (has_dir b.name) h
      ∙ has_dir-directories b.name whole in
    remove_backups-directories whole bs (remove_if no_fault true b.name state) ns
      (directories-remove_if no_fault no_fault b.name true state (same ∙ n) ∙ h)

pub keep_newest-directories :
    (suffix : Str) (keep : ℕ) (items : Items)
    → IsFolder items
    → directories (keep_newest no_fault suffix keep items).0 ≡ directories items
unfolding keep_newest list_backups_by_suffix
keep_newest-directories suffix keep items h =
    let backups = list_backups_by_suffix suffix items in
    elim (Bool-cases (leb (length backups) keep)) [
      | inl few ↦ rw few refl
      | inr many ↦ rw many (
          remove_backups-directories items (take (length backups - keep) backups) (items, 0)
            (All-take (NoDirectory items) (length backups - keep) backups (
              All-sort (NoDirectory items) (before_by age_key) (collect_backups suffix items)
                (collect-NoDirectory suffix items items (IsFolder-IsClear items h))))
            refl)
    ]
