-- ===== src/Jobs/Newest.antt =====
-- What the retention by number of app/jobs/backup is worth, said without the order in which the code
-- lists backups.
use kumacore.Prelude.{
  ℕ, zero, suc, ◌-◌, ◌≤◌, Bool, true, false, not, Option, none, some, List, [], ◌∷◌, filter, ◌≡◌,
  ◌⊎◌, inl, inr, refl, sym, ap, ◌∙◌, subst, arith, if◌then◌else◌, leb, Bool-cases, All, length,
  take, drop,
}
use kumacore.Prelude.Text.{Str, Eq-str, str_eq_iff}
use kumacore.Prelude.Sort.{
  sort, before_by, length-sort, sort-IsAscending, All-sort, All-unsort, take-le-drop,
}
use kumacore.Jobs.Dates.{Date, day_number}
use kumacore.Jobs.Folder.{Item, Items}
use kumacore.Jobs.Backup.{
  BackupEntry, backup_date, age_key, and_dated, collect_backups, list_backups_by_suffix,
}
use kumacore.Jobs.Removal.{has_file}

-- The last of a list, so many of them.
abbrev pub newest : ℕ → List BackupEntry → List BackupEntry
newest keep backups = drop (length backups - keep) backups

-- The backups whose files are not there.
unfoldable pub gone : Items → List BackupEntry → List BackupEntry
unfolding filter
gone items backups = filter (λ b. not (has_file b.name items)) backups

abbrev pub NotLater : List BackupEntry → BackupEntry → Type 0
NotLater left b = All (λ c. day_number b.date ≤ day_number c.date) left

-- So many backups of a suffix are left, or all if they are fewer, and none that is gone is of a later
-- day than one that is left.
abbrev pub IsRetained : ℕ → Str → Items → Items → Type 0
IsRetained keep suffix before after =
    let had = collect_backups suffix before in
    let left = collect_backups suffix after in
    (length left ≡ (if leb (length had) keep then length had else keep))
    × All (NotLater left) (gone after had)

module _ (P Q : BackupEntry → Type 0) (implies : (b : BackupEntry) → P b → Q b) where
  All-implies : (backups : List BackupEntry) → All P backups → All Q backups
  All-implies [] h = tt
  All-implies (b ∷ backups) (h, hs) = (implies b h, All-implies backups hs)

has_file-cons :
    (j : Str) (item : Item) (items : Items)
    → has_file j items ≡ true
    → has_file j (item ∷ items) ≡ true
unfolding has_file
has_file-cons j item items h = ground arith

has_file-here :
    (item : Item) (items : Items) → item.is_dir ≡ false → has_file item.name (item ∷ items) ≡ true
unfolding has_file
has_file-here item items f = ground (arith, str_eq_iff item.name item.name)

-- One step of the loop that collects backups: a file may be added.
pub collect_step :
    (Q : Str → Type 0) (is_dir : Bool) (name : Str) (date : Option Date) (rest : List BackupEntry)
    → (is_dir ≡ false → Q name)
    → All (λ b. Q b.name) rest
    → All (λ b. Q b.name) (if is_dir then rest else and_dated name date rest)
collect_step Q true name date rest h hs = hs
collect_step Q false name none rest h hs = hs
collect_step Q false name (some date) rest h hs = (h refl, hs)

collect-has_file :
    (suffix : Str) (items : Items)
    → All (λ b. has_file b.name items ≡ true) (collect_backups suffix items)
unfolding collect_backups
collect-has_file suffix [] = tt
collect-has_file suffix (item ∷ items) =
    collect_step (λ n. has_file n (item ∷ items) ≡ true) item.is_dir item.name
      (backup_date suffix item.name) (collect_backups suffix items) (has_file-here item items)
      (All-implies (λ b. has_file b.name items ≡ true) (λ b. has_file b.name (item ∷ items) ≡ true)
        (λ b h. has_file-cons b.name item items h) (collect_backups suffix items)
        (collect-has_file suffix items))

length-drop : (k : ℕ) (backups : List BackupEntry) → length (drop k backups) ≡ length backups - k
length-drop zero backups = omega arith
length-drop (suc k) [] = omega arith
length-drop (suc k) (b ∷ backups) = omega (arith, length-drop k backups)

module _ (P : BackupEntry → Type 0) where
  All-take-drop :
      (k : ℕ) (backups : List BackupEntry)
      → All P (take k backups)
      → All P (drop k backups)
      → All P backups
  All-take-drop zero backups h hs = hs
  All-take-drop (suc k) [] h hs = tt
  All-take-drop (suc k) (b ∷ backups) (h, hs) t = (h, All-take-drop k backups hs t)

-- It is enough to look at each backup: its file is there, or it has the property.
module _ (P : BackupEntry → Type 0) (after : Items) where
  abbrev IsThereOr : BackupEntry → Type 0
  IsThereOr b = (has_file b.name after ≡ true) ⊎ P b

  All-gone : (backups : List BackupEntry) → All IsThereOr backups → All P (gone after backups)
  unfolding gone filter
  All-gone [] h = tt
  All-gone (b ∷ backups) (inl there, hs) = rw there (All-gone backups hs)
  All-gone (b ∷ backups) (inr p, hs) = elim (Bool-cases (has_file b.name after)) [
    | inl there ↦ rw there (All-gone backups hs)
    | inr lost ↦ rw lost (p, All-gone backups hs)
  ]

module _ (keep : ℕ) (suffix : Str) (before after : Items)
    (kept : list_backups_by_suffix suffix after
      ≡ newest keep (list_backups_by_suffix suffix before)) where
  abbrev had : List BackupEntry
  had = collect_backups suffix before

  abbrev left : List BackupEntry
  left = collect_backups suffix after

  length-left : length left ≡ (if leb (length had) keep then length had else keep)
  unfolding list_backups_by_suffix
  length-left =
      let sorted = sort (before_by age_key) had in
      let l1 = length-sort age_key left in
      let l2 = length-sort age_key had in
      let l3 : length (sort (before_by age_key) left) ≡ length sorted - (length sorted - keep) =
        ap length kept ∙ length-drop (length sorted - keep) sorted in
      ground (arith, l1, l2, l3)

  gone-NotLater : All (NotLater left) (gone after had)
  unfolding list_backups_by_suffix
  gone-NotLater =
      let sorted = sort (before_by age_key) had in
      let k = length sorted - keep in
      let first : All (NotLater left) (take k sorted) =
        All-implies (NotLater (drop k sorted)) (NotLater left)
          (λ b h.
            All-unsort (λ c. day_number b.date ≤ day_number c.date) (before_by age_key) left
              (subst (λ l. NotLater l b) (sym kept) h))
          (take k sorted) (take-le-drop age_key k sorted (sort-IsAscending age_key had)) in
      let there : All (λ b. has_file b.name after ≡ true) (drop k sorted) =
        subst (λ l. All (λ b. has_file b.name after ≡ true) l) kept
          (All-sort (λ b. has_file b.name after ≡ true) (before_by age_key) left
            (collect-has_file suffix after)) in
      All-gone (NotLater left) after had (
        All-unsort (IsThereOr (NotLater left) after) (before_by age_key) had (
          All-take-drop (IsThereOr (NotLater left) after) k sorted
            (All-implies (NotLater left) (IsThereOr (NotLater left) after) (λ b h. inr h)
              (take k sorted) first)
            (All-implies (λ b. has_file b.name after ≡ true) (IsThereOr (NotLater left) after)
              (λ b h. inl h) (drop k sorted) there)))

  pub newest-IsRetained : IsRetained keep suffix before after
  newest-IsRetained = (length-left, gone-NotLater)
