-- ===== src/Scaffold/Copied.antt =====
-- Which paths of the repository a generated project copies (cmd/kumacore/internal/initcmd/write.go).
use kumacore.Prelude.{Bool, false, ◌||◌, List, [], ◌∷◌, ◌++◌, ◌≡◌, inl, inr, refl, ◌==◌, Bool-cases}
use kumacore.Prelude.Text.{Str, Eq-str, str_eq, str, has_prefix}
use kumacore.Scaffold.Modules.{home, auth, health, contains, normalize_module_ids}
use kumacore.Scaffold.Plan.{selected_paths}

-- The file is one of the paths or lies below one.
unfoldable pub covers : List Str → Str → Bool
covers [] file = false
covers (path ∷ paths) file =
    (path == file || has_prefix file (path ++ str "/")) || covers paths file

-- The directory of a module is copied exactly if the module is selected: its files, whatever their
-- names, and no other module's. No selection copies a file of app/jobs/backup.
pub covers-selected_paths :
    (ids : List Str) (file : Str)
    → (covers (selected_paths ids) (str "app/modules/home/" ++ file) ≡ contains home ids)
      × (covers (selected_paths ids) (str "app/modules/auth/" ++ file) ≡ contains auth ids)
      × (covers (selected_paths ids) (str "app/modules/health/" ++ file) ≡ contains health ids)
      × (covers (selected_paths ids) (str "app/jobs/backup/" ++ file) ≡ false)
unfolding selected_paths covers has_prefix str_eq normalize_module_ids
covers-selected_paths ids file = elim (Bool-cases (contains home ids)) [
  | inl a ↦ elim (Bool-cases (contains auth ids)) [
    | inl b ↦ elim (Bool-cases (contains health ids)) [
      | inl c ↦ rw (a, b, c) (refl, refl, refl, refl)
      | inr c ↦ rw (a, b, c) (refl, refl, refl, refl)
    ]
    | inr b ↦ elim (Bool-cases (contains health ids)) [
      | inl c ↦ rw (a, b, c) (refl, refl, refl, refl)
      | inr c ↦ rw (a, b, c) (refl, refl, refl, refl)
    ]
  ]
  | inr a ↦ elim (Bool-cases (contains auth ids)) [
    | inl b ↦ elim (Bool-cases (contains health ids)) [
      | inl c ↦ rw (a, b, c) (refl, refl, refl, refl)
      | inr c ↦ rw (a, b, c) (refl, refl, refl, refl)
    ]
    | inr b ↦ elim (Bool-cases (contains health ids)) [
      | inl c ↦ rw (a, b, c) (refl, refl, refl, refl)
      | inr c ↦ rw (a, b, c) (refl, refl, refl, refl)
    ]
  ]
]
