-- ===== src/Jobs/Entries.antt =====
-- The passes of app/jobs over a directory leave each name once, and bring no file back.
use kumacore.Prelude.{
  ℕ, ◌-◌, Bool, true, false, ◌&&◌, not, List, [], ◌∷◌, filter, ◌≡◌, arith, leb, Bool-cases, inl,
  inr, length, take,
}
use kumacore.Prelude.Text.{Str, Eq-str}
use kumacore.Jobs.Folder.{
  Items, NotNamed, IsFolder, is_removed, remove, remove_if, remove_chosen, no_fault,
}
use kumacore.Jobs.Backup.{BackupEntry, list_backups_by_suffix, remove_backups, keep_newest}
use kumacore.Jobs.Removal.{has_file, has_file-remove_if}

-- A directory stays one.
NotNamed-remove :
    (name gone : Str) (items : Items) → NotNamed name items → NotNamed name (remove gone items)
unfolding remove filter
NotNamed-remove name gone [] h = tt
NotNamed-remove name gone (item ∷ items) (h, hs) = elim (Bool-cases (is_removed gone item)) [
  | inl yes' ↦ rw yes' (NotNamed-remove name gone items hs)
  | inr no' ↦ rw no' (h, NotNamed-remove name gone items hs)
]

remove-IsFolder : (gone : Str) (items : Items) → IsFolder items → IsFolder (remove gone items)
unfolding remove filter
remove-IsFolder gone [] h = tt
remove-IsFolder gone (item ∷ items) (h, hs) = elim (Bool-cases (is_removed gone item)) [
  | inl yes' ↦ rw yes' (remove-IsFolder gone items hs)
  | inr no' ↦ rw no' (NotNamed-remove item.name gone items h, remove-IsFolder gone items hs)
]

remove_if-IsFolder :
    (fault : Str → Bool) (chosen : Bool) (name : Str) (state : Items × ℕ)
    → IsFolder state.0
    → IsFolder (remove_if fault chosen name state).0
unfolding remove_if
remove_if-IsFolder fault chosen name state h = elim (Bool-cases (chosen && not (fault name))) [
  | inl yes' ↦ rw yes' (remove-IsFolder name state.0 h)
  | inr no' ↦ rw no' h
]

pub remove_chosen-IsFolder :
    (fault chosen : Str → Bool) (rest : Items) (state : Items × ℕ)
    → IsFolder state.0
    → IsFolder (remove_chosen fault chosen rest state).0
unfolding remove_chosen
remove_chosen-IsFolder fault chosen [] state h = h
remove_chosen-IsFolder fault chosen (item ∷ rest) state h =
    remove_chosen-IsFolder fault chosen rest
      (remove_if fault (not item.is_dir && chosen item.name) item.name state)
      (remove_if-IsFolder fault (not item.is_dir && chosen item.name) item.name state h)

remove_backups-IsFolder :
    (fault : Str → Bool) (bs : List BackupEntry) (state : Items × ℕ)
    → IsFolder state.0
    → IsFolder (remove_backups fault bs state).0
unfolding remove_backups
remove_backups-IsFolder fault [] state h = h
remove_backups-IsFolder fault (b ∷ bs) state h =
    remove_backups-IsFolder fault bs (remove_if fault true b.name state)
      (remove_if-IsFolder fault true b.name state h)

pub keep_newest-IsFolder :
    (suffix : Str) (keep : ℕ) (items : Items)
    → IsFolder items
    → IsFolder (keep_newest no_fault suffix keep items).0
unfolding keep_newest
keep_newest-IsFolder suffix keep items h =
    let backups = list_backups_by_suffix suffix items in
    elim (Bool-cases (leb (length backups) keep)) [
      | inl few ↦ rw few h
      | inr many ↦
          rw many
            (remove_backups-IsFolder no_fault (take (length backups - keep) backups) (items, 0) h)
    ]

-- Removing brings no file back.
remove_backups-has_file :
    (j : Str) (bs : List BackupEntry) (state : Items × ℕ)
    → has_file j state.0 ≡ false
    → has_file j (remove_backups no_fault bs state).0 ≡ false
unfolding remove_backups
remove_backups-has_file j [] state h = h
remove_backups-has_file j (b ∷ bs) state h =
    remove_backups-has_file j bs (remove_if no_fault true b.name state)
      (ground (arith, has_file-remove_if no_fault no_fault j b.name true state))

pub keep_newest-has_file :
    (j suffix : Str) (keep : ℕ) (items : Items)
    → has_file j items ≡ false
    → has_file j (keep_newest no_fault suffix keep items).0 ≡ false
unfolding keep_newest
keep_newest-has_file j suffix keep items h =
    let backups = list_backups_by_suffix suffix items in
    elim (Bool-cases (leb (length backups) keep)) [
      | inl few ↦ rw few h
      | inr many ↦
          rw many (remove_backups-has_file j (take (length backups - keep) backups) (items, 0) h)
    ]
