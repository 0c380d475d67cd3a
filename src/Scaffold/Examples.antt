-- ===== src/Scaffold/Examples.antt =====
-- A selection of two modules, and a small source with markers.
use kumacore.Prelude.{
  true, false, none, some, ◌⊎◌, if◌then◌else◌, ◌≡◌, refl, [], ◌∷◌, ◌++◌, ok, List,
}
use kumacore.Prelude.Text.{count, Str, str, str_eq, has_prefix}
use kumacore.Scaffold.Modules.{
  home, auth, health, validate_modules, normalize_module_ids, known_module, contains,
}
use kumacore.Scaffold.Selection.{count-normalize_validated}
use kumacore.Scaffold.Markers.{replace_marked_region, find_marker, index}
use kumacore.Scaffold.Options.{Options}
use kumacore.Scaffold.Plan.{
  selected_paths, SourceTree, free, WriteFaults, FileChange, InitError, summary_failed,
  planned_changes, initialize_repository,
}
use kumacore.Scaffold.Whole.{initialize_repository-cases}
use kumacore.Scaffold.Copied.{covers, covers-selected_paths}
use kumacore.Scaffold.Regions.{IsReplaced, replace_marked_region-IsReplaced}

abbrev selected : List Str
selected = health ∷ home ∷ []

selected_valid : validate_modules selected ≡ ok tt
unfolding validate_modules str_eq known_module contains
selected_valid = refl

count-normalize_validated_example : count home (normalize_module_ids selected) ≡ count home selected
count-normalize_validated_example = count-normalize_validated selected home selected_valid

covers-selected_paths_example :
    (covers (selected_paths selected) (str "app/modules/home/" ++ str "handler.go")
      ≡ contains home selected)
    × (covers (selected_paths selected) (str "app/modules/auth/" ++ str "handler.go")
        ≡ contains auth selected)
    × (covers (selected_paths selected) (str "app/modules/health/" ++ str "handler.go")
        ≡ contains health selected)
    × (covers (selected_paths selected) (str "app/jobs/backup/" ++ str "handler.go") ≡ false)
covers-selected_paths_example = covers-selected_paths selected (str "handler.go")

abbrev marked : Str
marked = str "a<old>b"

marked_replaced :
    replace_marked_region marked (str "<") (str ">") (str "new") ≡ ok (str "a<" ++ 10 ∷ str "new>b")
unfolding replace_marked_region find_marker index has_prefix
marked_replaced = refl

replace_marked_region-IsReplaced_example :
    IsReplaced marked (str "<") (str ">") (str "new") (str "a<" ++ 10 ∷ str "new>b")
replace_marked_region-IsReplaced_example =
    replace_marked_region-IsReplaced marked (str "<") (str ">") (str "new")
      {result = str "a<" ++ 10 ∷ str "new>b"} marked_replaced

abbrev empty_region : Str → Str
empty_region name = str "// kumacore:begin " ++ name ++ str "\n// kumacore:end " ++ name ++ str "\n"

abbrev every_source : Str
every_source =
    str "module kumacore\n"
    ++ empty_region (str "modules-imports")
    ++ empty_region (str "modules-setup")
    ++ empty_region (str "modules-middleware")
    ++ empty_region (str "modules-routes")
    ++ empty_region (str "jobs-imports")
    ++ empty_region (str "jobs-register")

abbrev small_tree : SourceTree
small_tree = record { read_file = λ path. some every_source; walk = λ path. some (path ∷ []) }

abbrev broken_output : WriteFaults
broken_output = record {
  at_staging = false;
  at_file = λ path. false;
  at_rename = false;
  at_summary = true;
}

abbrev shop : Options
shop = record { project_name = str "shop"; modules = selected }

initialize_repository-cases_example :
    let (project, failed) = initialize_repository small_tree free broken_output shop in
    ((project ≡ none) × ((e : InitError) × (failed ≡ some e)))
    ⊎ ((changes : List FileChange) × (planned_changes small_tree shop ≡ ok changes)
        × (project ≡ some changes)
        × (free ≡ free)
        × (failed ≡ (if true then some summary_failed else none)))
initialize_repository-cases_example = initialize_repository-cases small_tree free broken_output shop
