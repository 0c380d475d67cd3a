-- ===== src/Jobs/Removal.antt =====
-- What the passes of app/jobs over a directory remove: exactly the files that they choose.
use kumacore.Prelude.{
  ℕ, ◌+◌, ◌*◌, Bool, false, ◌&&◌, ◌||◌, not, none, some, [], ◌∷◌, ◌≡◌, refl, ap, sym, ◌∙◌, arith,
  ◌==◌, ltb, filter, All,
}
use kumacore.Prelude.Text.{Str, Eq-str, str_eq_iff}
use kumacore.Jobs.Dates.{Date, IsDate, Moment, day_number, day_nanos, instant}
use kumacore.Jobs.Folder.{
  Item, Items, Folder, NotNamed, IsFolder, has_dir, is_file, remove, remove_if, remove_chosen,
}
use kumacore.Jobs.Backup.{
  is_before, backup_date, backup_name, prune_by_date, delete_stray_files, is_stray,
}
use kumacore.Jobs.Logs.{delete_old_logs, is_old_log, log_name, log_retention_days}
use kumacore.Jobs.Stamps.{IsSuffix, backup_date-backup_name, parse_dashed-log_name}

-- A file with the name is there.
unfoldable pub has_file : Str → Items → Bool
has_file name [] = false
has_file name (item ∷ items) = is_file name item || has_file name items

-- The directories in it.
unfoldable pub directories : Items → Items
unfolding filter
directories items = filter (λ item. item.is_dir) items

pub has_file-remove :
    (j i : Str) (items : Items) → has_file j (remove i items) ≡ (has_file j items && not (j == i))
unfolding has_file remove
has_file-remove j i [] = refl
has_file-remove j i (item ∷ items) = ground (
  arith,
  has_file-remove j i items,
  str_eq_iff item.name i,
  str_eq_iff item.name j,
  str_eq_iff j i,
)

-- Where no directory has the name, the directories stay.
pub directories-remove :
    (i : Str) (items : Items)
    → has_dir i items ≡ false
    → directories (remove i items) ≡ directories items
unfolding directories remove has_dir filter
directories-remove i [] h = refl
directories-remove i (item ∷ items) h = ground (arith, directories-remove i items)

pub has_dir-directories :
    (j : Str) (items : Items) → has_dir j (directories items) ≡ has_dir j items
unfolding directories has_dir filter
has_dir-directories j [] = refl
has_dir-directories j (item ∷ items) = ground (arith, has_dir-directories j items)

-- No directory has the name of a file in the list.
abbrev pub IsClear : Items → Items → Type 0
IsClear rest items = All (λ item. (not item.is_dir && has_dir item.name items) ≡ false) rest

IsClear-cons :
    (x : Item) (rest items : Items)
    → NotNamed x.name rest
    → IsClear rest items
    → IsClear rest (x ∷ items)
unfolding has_dir
IsClear-cons x [] items n h = tt
IsClear-cons x (y ∷ rest) items (n, ns) (h, hs) = (
  ground (arith, str_eq_iff x.name y.name, str_eq_iff y.name x.name),
  IsClear-cons x rest items ns hs,
)

not_named : (x : Str) (items : Items) → NotNamed x items → has_dir x items ≡ false
unfolding has_dir
not_named x [] n = refl
not_named x (y ∷ items) (n, ns) = ground (arith, not_named x items ns)

pub IsFolder-IsClear : (items : Items) → IsFolder items → IsClear items items
unfolding has_dir
IsFolder-IsClear [] h = tt
IsFolder-IsClear (x ∷ items) (n, h) = (
  ground (arith, not_named x.name items n),
  IsClear-cons x items items n (IsFolder-IsClear items h),
)

module _ (fault chosen : Str → Bool) where
  pub has_file-remove_if :
      (j name : Str) (now : Bool) (state : Items × ℕ)
      → has_file j (remove_if fault now name state).0
        ≡ (has_file j state.0 && not (j == name && now && not (fault name)))
  unfolding remove_if
  has_file-remove_if j name now state = ground (arith, has_file-remove j name state.0)

  pub directories-remove_if :
      (name : Str) (now : Bool) (state : Items × ℕ)
      → (now && has_dir name state.0) ≡ false
      → directories (remove_if fault now name state).0 ≡ directories state.0
  unfolding remove_if
  directories-remove_if name now state h = ground (arith, directories-remove name state.0)

  has_file-loop :
      (j : Str) (rest : Items) (state : Items × ℕ)
      → has_file j (remove_chosen fault chosen rest state).0
        ≡ (has_file j state.0 && not (has_file j rest && chosen j && not (fault j)))
  unfolding remove_chosen has_file
  has_file-loop j [] state = ground arith
  has_file-loop j (item ∷ rest) state = ground (
    arith,
    has_file-loop j rest (remove_if fault (not item.is_dir && chosen item.name) item.name state),
    has_file-remove_if j item.name (not item.is_dir && chosen item.name) state,
    str_eq_iff item.name j,
    str_eq_iff j item.name,
  )

  directories-loop :
      (whole rest : Items) (state : Items × ℕ)
      → IsClear rest whole
      → directories state.0 ≡ directories whole
      → directories (remove_chosen fault chosen rest state).0 ≡ directories whole
  unfolding remove_chosen
  directories-loop whole [] state c h = h
  directories-loop whole (item ∷ rest) state (c, cs) h =
      let remove_now = not item.is_dir && chosen item.name in
      let same : has_dir item.name state.0 ≡ has_dir item.name whole =
        sym (has_dir-directories item.name state.0)
        ∙ ap (has_dir item.name) h
        ∙ has_dir-directories item.name whole in
      directories-loop whole rest (remove_if fault remove_now item.name state) cs
        (directories-remove_if item.name remove_now state (ground arith) ∙ h)

  -- A pass removes the files that it chooses and can remove, and keeps the others.
  pub has_file-remove_chosen :
      (j : Str) (items : Items)
      → has_file j (remove_chosen fault chosen items (items, 0)).0
        ≡ (has_file j items && not (chosen j && not (fault j)))
  has_file-remove_chosen j items = ground (arith, has_file-loop j items (items, 0))

  -- It leaves the directories as they are, also the empty ones, which `os.Remove` could remove.
  pub directories-remove_chosen :
      (items : Items)
      → IsFolder items
      → directories (remove_chosen fault chosen items (items, 0)).0 ≡ directories items
  directories-remove_chosen items h =
      directories-loop items items (items, 0) (IsFolder-IsClear items h) refl

abbrev pub items_of : Folder → Items
items_of none = []
items_of (some items) = items

-- In a directory where each name stands once, pruning by age removes the backup of a day exactly if
-- it is of the suffix, more than the age has passed since the midnight of the day, and it can be
-- removed; and it leaves every directory in it as it is, whatever its name, also an empty one.
pub prune_by_date-backup_name :
    (fault : Str → Bool) (now : Moment) (suffix other : Str) (max_age : ℕ) (date : Date)
    (items : Items)
    → IsDate date
    → IsSuffix suffix
    → IsFolder items
    → let name = backup_name date suffix in
      let items' = items_of (prune_by_date false fault now other max_age (some items)).0 in
      (has_file name items' ≡ (
        has_file name items
        && not (
            suffix == other
            && ltb (day_number date * day_nanos + max_age) (instant now)
            && not (fault name))))
      × (directories items' ≡ directories items)
unfolding prune_by_date
prune_by_date-backup_name fault now suffix other max_age date items v h d =
    let name = backup_name date suffix in
    let chosen : Str → Bool = λ n. is_before now max_age (backup_date other n) in
    (
      ground (
        arith,
        has_file-remove_chosen fault chosen name items,
        backup_date-backup_name date suffix other v h,
      ),
      directories-remove_chosen fault chosen items d,
    )

is_old_log-log_name :
    (now : Moment) (date : Date)
    → IsDate date
    → is_old_log now (log_name date)
      ≡ ltb (day_number date * day_nanos + log_retention_days * day_nanos) (instant now)
unfolding is_old_log
is_old_log-log_name now date v =
    let (ends, parsed) = parse_dashed-log_name date v in rw (ends, parsed) refl

-- In a directory where each name stands once, the cleanup of logs removes the log file of a day
-- exactly if more than 30 days have passed since the midnight of the day, and it can be removed; and
-- it leaves every directory in it as it is, whatever its name, also an empty one.
pub delete_old_logs-log_name :
    (fault : Str → Bool) (now : Moment) (date : Date) (items : Items)
    → IsDate date
    → IsFolder items
    → let name = log_name date in
      let items' = items_of (delete_old_logs false fault now (some items)).0 in
      (has_file name items' ≡ (
        has_file name items
        && not (
            ltb (day_number date * day_nanos + log_retention_days * day_nanos) (instant now)
            && not (fault name))))
      × (directories items' ≡ directories items)
unfolding delete_old_logs
delete_old_logs-log_name fault now date items v d =
    let name = log_name date in
    (
      ground (
        arith,
        has_file-remove_chosen fault (is_old_log now) name items,
        is_old_log-log_name now date v,
      ),
      directories-remove_chosen fault (is_old_log now) items d,
    )

-- Strays go, and backups stay, whatever their suffix.
pub delete_stray_files-has_file :
    (fault : Str → Bool) (j : Str) (items : Items)
    → has_file j (items_of (delete_stray_files false fault (some items)).0)
      ≡ (has_file j items && not (is_stray j && not (fault j)))
unfolding delete_stray_files
delete_stray_files-has_file fault j items = has_file-remove_chosen fault is_stray j items
