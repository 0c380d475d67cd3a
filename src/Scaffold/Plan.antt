-- ===== src/Scaffold/Plan.antt =====
-- The rest of cmd/kumacore/internal/initcmd/write.go and command.go: which files a generated project
-- has, where they are written, and the run of the command. The repository is what reading a file
-- and walking a path give; writing is a list of files, or the step that fails.
use kumacore.Prelude.{
  Bool, true, false, ◌&&◌, not, Option, none, some, List, [], ◌∷◌, ◌++◌, Result, ok, err, ◌>>=◌,
  ◌>>◌, fail_if, if◌then◌else◌, length, drop, ltb,
}
use kumacore.Prelude.Text.{Str, Eq-str, str, str_lt, has_prefix, is_empty, trim_space}
use kumacore.Prelude.Sort.{sort}
use kumacore.Scaffold.Modules.{contains, normalize_module_ids}
use kumacore.Scaffold.Options.{
  Options, OptionsError, validate_options, metadata_from_options, default_project_name,
  default_modules, parse_module_list,
}
use kumacore.Scaffold.Markers.{
  MarkerError, Section, join, rewrite_marked_source, render_project_file,
}
use kumacore.Scaffold.Render.{
  by_module, module_lines, render_git_ignore, render_readme, render_job_imports,
  render_module_imports, render_module_setup, render_module_middleware, render_module_routes,
  render_job_registrations,
}

-- What is read from the repository: `walk` gives the files at or below a path, in the order of
-- `filepath.WalkDir`, each with the path given to it as a prefix.
pub record SourceTree : Type 0 where
  pub read_file : Str → Option Str
  pub walk : Str → Option (List Str)

pub data InitError : Type 0 where
  usage : Str → InitError
  bad_options : OptionsError → InitError
  bad_marker : MarkerError → InitError
  unreadable missing_path : Str → InitError
  unexpected_module inspect_failed prompt_failed : InitError
  destination_exists destination_not_directory stat_failed : InitError
  write_failed rename_failed summary_failed : InitError

-- `fileChange`
pub record FileChange : Type 0 where
  pub path : Str
  pub reason : Str
  pub content : Str

abbrev pub server_main_path : Str
server_main_path = str "cmd/server/main.go"

abbrev pub server_database_path : Str
server_database_path = str "cmd/server/database.go"

abbrev pub server_modules_path : Str
server_modules_path = str "cmd/server/modules.go"

abbrev pub server_worker_path : Str
server_worker_path = str "cmd/server/worker.go"

abbrev pub go_mod_path : Str
go_mod_path = str "go.mod"

abbrev pub go_sum_path : Str
go_sum_path = str "go.sum"

abbrev pub read : SourceTree → Str → Result InitError Str
read tree path = elim (tree.read_file path) [ none ↦ err (unreadable path) | some text ↦ ok text ]

abbrev pub marked : Result MarkerError Str → Result InitError Str
marked (ok text) = ok text
marked (err e) = err (bad_marker e)

abbrev pub section : Str → Str → Section
section name content = record {
  begin_marker = str "// kumacore:begin " ++ name;
  end_marker = str "// kumacore:end " ++ name;
  content = content;
}

-- `rewriteServerModules`
unfoldable pub rewrite_server_modules : Str → List Str → Str → Result InitError Str
rewrite_server_modules source modules project_name = marked (
    rewrite_marked_source source
      (section (str "modules-imports") (render_module_imports modules)
        ∷ section (str "modules-setup") (render_module_setup modules)
        ∷ section (str "modules-middleware") (render_module_middleware modules)
        ∷ section (str "modules-routes") (render_module_routes modules)
        ∷ [])
      project_name)

-- `rewriteServerWorker`
unfoldable pub rewrite_server_worker : Str → Str → Result InitError Str
rewrite_server_worker source project_name = marked (
    rewrite_marked_source source
      (section (str "jobs-imports") render_job_imports
        ∷ section (str "jobs-register") render_job_registrations
        ∷ [])
      project_name)

abbrev pub module_line : Str
module_line = str "module kumacore\n"

-- `renderGoMod`
unfoldable pub render_go_mod : SourceTree → Str → Result InitError Str
render_go_mod tree project_name = read tree go_mod_path >>= λ source.
    fail_if (not (has_prefix source module_line)) unexpected_module
    >> ok (str "module " ++ project_name ++ str "\n" ++ drop (length module_line) source)

-- `renderProjectFile`
unfoldable pub project_file : SourceTree → Str → Str → Result InitError Str
project_file tree path project_name =
    read tree path >>= λ text. ok (render_project_file path project_name text)

abbrev pub common_paths : List Str
common_paths =
    str "core"
    ∷ str "app/jobs/logging"
    ∷ str "app/migrations/embed.go"
    ∷ str "app/migrations/source.go"
    ∷ str "app/migrations/sqlite/worker"
    ∷ str "app/testing"
    ∷ str "app/web"
    ∷ []

abbrev pub auth_paths : List Str
auth_paths =
    str "app/modules/auth"
    ∷ str "app/middleware/auth"
    ∷ str "app/repositories/auth"
    ∷ str "app/services/auth"
    ∷ str "app/repositories/repositories.go"
    ∷ str "app/migrations/sqlite/app/0001_create_auth_tables.sql"
    ∷ []

-- The paths that are copied, before they are put in order.
unfoldable pub selected_paths : List Str → List Str
unfolding module_lines
selected_paths module_ids =
    common_paths
    ++ module_lines
        (by_module (str "app/modules/home" ∷ []) auth_paths (str "app/modules/health" ∷ []))
        (normalize_module_ids module_ids)

-- The keys of a Go set of strings.
unfoldable pub unique : List Str → List Str
unfolding contains
unique [] = []
unique (s ∷ ss) = let rest = unique ss in if contains s ss then rest else s ∷ rest

unfoldable pub collect_changes : SourceTree → Str → List Str → Result InitError (List FileChange)
unfolding project_file
collect_changes tree project_name [] = ok []
collect_changes tree project_name (path ∷ paths) =
    project_file tree path project_name >>= λ content.
    collect_changes tree project_name paths >>= λ changes.
    ok (record { path = path; reason = str "copy scaffold file"; content = content } ∷ changes)

-- `collectSourceFiles`
unfoldable pub collect_source_files : SourceTree → Str → Str → Result InitError (List FileChange)
unfolding collect_changes sort
collect_source_files tree path project_name = elim (tree.walk path) [
  | none ↦ err (unreadable path)
  | some paths ↦ collect_changes tree project_name paths >>= λ changes.
      ok (sort (λ left right. str_lt left.path right.path) changes)
]

unfoldable pub collect_all : SourceTree → Str → List Str → Result InitError (List FileChange)
unfolding collect_source_files
collect_all tree project_name [] = ok []
collect_all tree project_name (path ∷ paths) =
    collect_source_files tree path project_name >>= λ changes.
    collect_all tree project_name paths >>= λ others. ok (changes ++ others)

-- `plannedProjectFiles`
unfoldable pub planned_project_files : SourceTree → Options → Result InitError (List FileChange)
unfolding collect_all selected_paths unique
planned_project_files tree options =
    collect_all tree options.project_name (sort str_lt (unique (selected_paths options.modules)))

abbrev pub change : Str → Str → Str → FileChange
change path reason content = record { path = path; reason = reason; content = content }

-- `plannedChanges`
unfoldable pub planned_changes : SourceTree → Options → Result InitError (List FileChange)
unfolding planned_project_files render_go_mod rewrite_server_modules rewrite_server_worker
    project_file
planned_changes tree options =
    let name = options.project_name in
    project_file tree server_main_path name >>= λ server_main.
    project_file tree server_database_path name >>= λ server_database.
    read tree server_modules_path >>= λ modules_source.
    rewrite_server_modules modules_source (metadata_from_options options) name >>= λ server_modules.
    read tree server_worker_path >>= λ worker_source.
    rewrite_server_worker worker_source name >>= λ server_worker.
    render_go_mod tree name >>= λ go_mod. read tree go_sum_path >>= λ go_sum.
    planned_project_files tree options >>= λ project_files. ok (
      change go_mod_path (str "write project file") go_mod
      ∷ change go_sum_path (str "write project file") go_sum
      ∷ change (str ".gitignore") (str "write project file") render_git_ignore
      ∷ change (str "README.md") (str "write project file") (render_readme options)
      ∷ change server_main_path (str "write project file") server_main
      ∷ change server_database_path (str "copy scaffold file") server_database
      ∷ change server_modules_path (str "write generated wiring") server_modules
      ∷ change server_worker_path (str "write generated wiring") server_worker
      ∷ change (str "app/migrations/sqlite/app/.gitkeep") (str "write project file") []
      ∷ project_files)

-- What `os.Stat` says of the destination.
pub data Destination : Type 0 where
  free directory_there file_there no_answer : Destination

-- `ensureProjectDestination`
unfoldable pub ensure_project_destination : Destination → Result InitError (Unit {0})
ensure_project_destination free = ok tt
ensure_project_destination directory_there = err destination_exists
ensure_project_destination file_there = err destination_not_directory
ensure_project_destination no_answer = err stat_failed

-- The faults of writing: of the staging directory and one of its files, of the last rename, and of
-- the summary.
pub record WriteFaults : Type 0 where
  pub at_staging : Bool
  pub at_file : Str → Bool
  pub at_rename : Bool
  pub at_summary : Bool

unfoldable pub write_staged : (Str → Bool) → List FileChange → Result InitError (List FileChange)
write_staged fault [] = ok []
write_staged fault (file_change ∷ changes) =
    fail_if (fault file_change.path) write_failed
    >> (write_staged fault changes >>= λ written. ok (file_change ∷ written))

-- `initializeRepository`: the project that stands at the destination afterwards, if it was made, and
-- the error. The staging directory is removed at the end, and the rename moves it whole.
abbrev pub renamed : Bool → List FileChange → Option (List FileChange) × Option InitError
renamed summary_fails written = (some written, if summary_fails then some summary_failed else none)

abbrev pub failed_with : InitError → Option (List FileChange) × Option InitError
failed_with e = (none, some e)

unfoldable pub initialize_repository :
    SourceTree → Destination → WriteFaults → Options → Option (List FileChange) × Option InitError
unfolding planned_changes ensure_project_destination write_staged
initialize_repository tree destination faults options =
    let staged =
      (planned_changes tree options >>= λ changes.
      ensure_project_destination destination
      >> fail_if faults.at_staging write_failed
      >> write_staged faults.at_file changes
      >>= λ written. fail_if faults.at_rename rename_failed >> ok written) in
    elim staged [ err e ↦ failed_with e | ok written ↦ renamed faults.at_summary written ]

-- `ensureRepoRoot`
unfoldable pub ensure_paths : (Str → Option Bool) → List Str → Result InitError (Unit {0})
ensure_paths stat [] = ok tt
ensure_paths stat (path ∷ paths) =
    elim (stat path) [
      | none ↦ err stat_failed
      | some there ↦ fail_if (not there) (missing_path path)
    ]
    >> ensure_paths stat paths

unfoldable pub ensure_repo_root : (Str → Option Bool) → Result InitError (Unit {0})
unfolding ensure_paths
ensure_repo_root stat =
    ensure_paths stat (server_main_path ∷ go_mod_path ∷ str "app/modules" ∷ str "core/config" ∷ [])

-- `promptString`, for the line that was read, if writing and reading worked
unfoldable pub prompt_string : Option Str → Str → Result InitError Str
prompt_string none default_value = err prompt_failed
prompt_string (some line) default_value =
    let resolved = trim_space line in if is_empty resolved then ok default_value else ok resolved

-- The answers of the two prompts, and whether the list of modules could be written.
pub record Answers : Type 0 where
  pub name_line : Option Str
  pub list_written : Bool
  pub modules_line : Option Str

unfoldable pub resolve_name : Bool → Str → Option Str → Result InitError Str
unfolding prompt_string
resolve_name interactive argument line =
    let name = trim_space argument in
    if is_empty name
    then (fail_if (not interactive) (usage (str "kumacore init: missing <project-name>"))
        >> prompt_string line default_project_name)
    else ok name

unfoldable pub resolve_modules : Bool → Answers → Result InitError (List Str)
unfolding prompt_string parse_module_list
resolve_modules false answers = ok default_modules
resolve_modules true answers =
    fail_if (not answers.list_written) prompt_failed
    >> (prompt_string answers.modules_line (join (str ",") default_modules) >>= λ line.
        ok (parse_module_list line))

-- `resolveOptions`
unfoldable pub resolve_options : Bool → Str → Answers → Result InitError Options
unfolding resolve_name resolve_modules
resolve_options interactive argument answers =
    resolve_name interactive argument answers.name_line >>= λ name.
    resolve_modules interactive answers >>= λ modules.
    ok (record { project_name = name; modules = modules })

abbrev pub checked : Result OptionsError (Unit {0}) → Result InitError (Unit {0})
checked (ok u) = ok u
checked (err e) = err (bad_options e)

abbrev pub first_or_empty : List Str → Str
first_or_empty [] = []
first_or_empty (s ∷ ss) = s

-- `run` up to `initializeRepository`; `none` for the input is an error of its inspection
unfoldable pub prepare :
    List Str → Option Bool → Answers → (Str → Option Bool) → Result InitError Options
unfolding resolve_options validate_options ensure_repo_root
prepare args interactive answers stat =
    fail_if (ltb 1 (length args)) (usage (str "kumacore init: too many positional arguments"))
    >> elim interactive [
      | none ↦ err inspect_failed
      | some is_interactive ↦
          fail_if (not is_interactive && is_empty (trim_space (first_or_empty args)))
            (usage (str "kumacore init: missing <project-name>"))
          >> (resolve_options is_interactive (first_or_empty args) answers >>= λ options.
              checked (validate_options options) >> ensure_repo_root stat >> ok options)
    ]

-- `run`
unfoldable pub run :
    List Str
    → Option Bool
    → Answers
    → (Str → Option Bool)
    → SourceTree
    → (Str → Destination)
    → WriteFaults
    → Option (List FileChange) × Option InitError
unfolding prepare initialize_repository
run args interactive answers stat tree destination faults =
    elim (prepare args interactive answers stat) [
      | err e ↦ failed_with e
      | ok options ↦ initialize_repository tree (destination options.project_name) faults options
    ]
