-- ===== src/Jobs/Retention.antt =====
-- The retention by number of app/jobs/backup: what is left are the newest backups of each suffix.
use kumacore.Prelude.{
  ℕ, zero, suc, ◌-◌, Bool, true, false, not, List, [], ◌∷◌, filter, ◌≡◌, refl, ap, sym, ◌∙◌, arith,
  ◌==◌, leb, Bool-cases, Option-cases, inl, inr, All, length, take, drop, Eq-nat,
}
use kumacore.Prelude.Text.{Str, Eq-str, str_eq_iff}
use kumacore.Prelude.Sort.{sort, insert_sorted, before_by, filter-sort}
use kumacore.Jobs.Folder.{Items, NotNamed, IsFolder, remove, count_removal, remove_if, no_fault}
use kumacore.Jobs.Backup.{
  BackupEntry, backup_date, age_key, collect_backups, list_backups_by_suffix, remove_backups,
  keep_newest,
}

-- Names differ.
abbrev Apart : BackupEntry → List BackupEntry → Type 0
Apart b backups = All (λ c. (c.name == b.name) ≡ false) backups

abbrev IsDistinct : List BackupEntry → Type 0
IsDistinct [] = Unit
IsDistinct (b ∷ backups) = Apart b backups × IsDistinct backups

abbrev pub other_name : Str → BackupEntry → Bool
other_name name c = not (c.name == name)

pub collect-remove :
    (suffix name : Str) (items : Items)
    → collect_backups suffix (remove name items)
      ≡ filter (other_name name) (collect_backups suffix items)
unfolding collect_backups remove filter
collect-remove suffix name [] = refl
collect-remove suffix name (item ∷ items) = elim (Option-cases (backup_date suffix item.name)) [
  | inl e ↦ ground (arith, collect-remove suffix name items)
  | inr (date, e) ↦ ground (arith, collect-remove suffix name items)
]

-- The list without the entries that have one of the names.
unfoldable pub without : List BackupEntry → List BackupEntry → List BackupEntry
without [] backups = backups
without (b ∷ bs) backups = without bs (filter (other_name b.name) backups)

pub collect-remove_backups :
    (suffix : Str) (bs : List BackupEntry) (state : Items × ℕ)
    → collect_backups suffix (remove_backups no_fault bs state).0
      ≡ without bs (collect_backups suffix state.0)
unfolding remove_backups remove_if without
collect-remove_backups suffix [] state = refl
collect-remove_backups suffix (b ∷ bs) state =
    collect-remove_backups suffix bs (remove b.name state.0, count_removal b.name state.0 state.1)
    ∙ ap (without bs) (collect-remove suffix b.name state.0)

sort-without :
    (bs backups : List BackupEntry)
    → sort (before_by age_key) (without bs backups) ≡ without bs (sort (before_by age_key) backups)
unfolding without
sort-without [] backups = refl
sort-without (b ∷ bs) backups =
    sort-without bs (filter (other_name b.name) backups)
    ∙ ap (without bs) (sym (filter-sort age_key (other_name b.name) backups))

filter-Apart :
    (b : BackupEntry) (backups : List BackupEntry)
    → Apart b backups
    → filter (other_name b.name) backups ≡ backups
unfolding filter
filter-Apart b [] h = refl
filter-Apart b (c ∷ backups) (h, hs) = rw h (ap (λ t. c ∷ t) (filter-Apart b backups hs))

filter_self :
    (b : BackupEntry) (backups : List BackupEntry)
    → Apart b backups
    → filter (other_name b.name) (b ∷ backups) ≡ backups
unfolding filter
filter_self b backups h =
    let same : (b.name == b.name) ≡ true = (str_eq_iff b.name b.name).1 refl in
    rw same (filter-Apart b backups h)

without-take :
    (k : ℕ) (backups : List BackupEntry)
    → IsDistinct backups
    → without (take k backups) backups ≡ drop k backups
unfolding without filter
without-take zero backups h = refl
without-take (suc k) [] h = refl
without-take (suc k) (b ∷ backups) (h, hs) =
    ap (without (take k backups)) (filter_self b backups h) ∙ without-take k backups hs

-- Distinct names stay distinct.
insert_sorted-Apart :
    (before : BackupEntry → BackupEntry → Bool) (b x : BackupEntry) (xs : List BackupEntry)
    → (x.name == b.name) ≡ false
    → Apart b xs
    → Apart b (insert_sorted before x xs)
unfolding insert_sorted
insert_sorted-Apart before b x [] e h = (e, tt)
insert_sorted-Apart before b x (y ∷ ys) e (h, hs) = elim (Bool-cases (before y x)) [
  | inl later ↦ rw later (h, insert_sorted-Apart before b x ys e hs)
  | inr here ↦ rw here (e, (h, hs))
]

name_comm : (s t : Str) → (s == t) ≡ false → (t == s) ≡ false
name_comm s t h = ground (arith, str_eq_iff s t, str_eq_iff t s)

insert_sorted-IsDistinct :
    (before : BackupEntry → BackupEntry → Bool) (x : BackupEntry) (xs : List BackupEntry)
    → Apart x xs
    → IsDistinct xs
    → IsDistinct (insert_sorted before x xs)
unfolding insert_sorted
insert_sorted-IsDistinct before x [] h d = (tt, tt)
insert_sorted-IsDistinct before x (y ∷ ys) (h, hs) (a, d) = elim (Bool-cases (before y x)) [
  | inl later ↦ rw later (
    insert_sorted-Apart before y x ys (name_comm y.name x.name h) a,
    insert_sorted-IsDistinct before x ys hs d,
  )
  | inr here ↦ rw here ((h, hs), (a, d))
]

sort-Apart :
    (before : BackupEntry → BackupEntry → Bool) (b : BackupEntry) (xs : List BackupEntry)
    → Apart b xs
    → Apart b (sort before xs)
unfolding sort
sort-Apart before b [] h = tt
sort-Apart before b (x ∷ xs) (h, hs) =
    insert_sorted-Apart before b x (sort before xs) h (sort-Apart before b xs hs)

sort-IsDistinct :
    (before : BackupEntry → BackupEntry → Bool) (xs : List BackupEntry)
    → IsDistinct xs
    → IsDistinct (sort before xs)
unfolding sort
sort-IsDistinct before [] d = tt
sort-IsDistinct before (x ∷ xs) (a, d) =
    insert_sorted-IsDistinct before x (sort before xs) (sort-Apart before x xs a)
      (sort-IsDistinct before xs d)

collect-Apart :
    (suffix : Str) (b : BackupEntry) (items : Items)
    → NotNamed b.name items
    → Apart b (collect_backups suffix items)
unfolding collect_backups
collect-Apart suffix b [] h = tt
collect-Apart suffix b (item ∷ items) (h, hs) = elim (Bool-cases item.is_dir) [
  | inl d ↦ rw d (collect-Apart suffix b items hs)
  | inr f ↦ elim (Option-cases (backup_date suffix item.name)) [
    | inl e ↦ rw (f, e) (collect-Apart suffix b items hs)
    | inr (date, e) ↦ rw (f, e) (h, collect-Apart suffix b items hs)
  ]
]

collect-IsDistinct :
    (suffix : Str) (items : Items) → IsFolder items → IsDistinct (collect_backups suffix items)
unfolding collect_backups
collect-IsDistinct suffix [] h = tt
collect-IsDistinct suffix (item ∷ items) (h, hs) = elim (Bool-cases item.is_dir) [
  | inl d ↦ rw d (collect-IsDistinct suffix items hs)
  | inr f ↦ elim (Option-cases (backup_date suffix item.name)) [
    | inl e ↦ rw (f, e) (collect-IsDistinct suffix items hs)
    | inr (date, e) ↦
        rw (f, e)
          (
            collect-Apart suffix (record { name = item.name; date = date }) items h,
            collect-IsDistinct suffix items hs,
          )
  ]
]

-- Pruning by number keeps the newest backups of the suffix, as many as it is to keep.
pub list-keep_newest :
    (suffix : Str) (keep : ℕ) (items : Items)
    → IsFolder items
    → list_backups_by_suffix suffix (keep_newest no_fault suffix keep items).0
      ≡ drop
          (length (list_backups_by_suffix suffix items) - keep)
          (list_backups_by_suffix suffix items)
unfolding keep_newest list_backups_by_suffix
list-keep_newest suffix keep items d =
    let backups = list_backups_by_suffix suffix items in
    elim (Bool-cases (leb (length backups) keep)) [
      | inl few ↦
          let zero' : 0 ≡ length backups - keep = ground arith in
          rw few (ap (λ n. drop n backups) zero')
      | inr many ↦ rw many (
          ap (sort (before_by age_key))
            (collect-remove_backups suffix (take (length backups - keep) backups) (items, 0))
          ∙ sort-without (take (length backups - keep) backups) (collect_backups suffix items)
          ∙ without-take (length backups - keep) backups (
              sort-IsDistinct (before_by age_key) (collect_backups suffix items)
                (collect-IsDistinct suffix items d)))
    ]
