-- ===== src/Scaffold/Render.antt =====
-- cmd/kumacore/internal/initcmd/render.go: the texts that are generated for the selected modules.
use kumacore.Prelude.{List, [], ◌∷◌, ◌++◌, map, if◌then◌else◌, ◌==◌}
use kumacore.Prelude.Text.{Str, Eq-str, str}
use kumacore.Scaffold.Modules.{home, auth, health, normalize_module_ids}
use kumacore.Scaffold.Options.{Options}
use kumacore.Scaffold.Markers.{join, newline}

unfoldable pub join_section_lines : List Str → Str
unfolding join
join_section_lines [] = []
join_section_lines (line ∷ lines) = join newline (line ∷ lines) ++ newline

-- The loop over the selected modules, with the lines of each.
unfoldable pub module_lines : (Str → List Str) → List Str → List Str
module_lines lines [] = []
module_lines lines (i ∷ ids) = lines i ++ module_lines lines ids

-- A switch over the id of a module.
abbrev pub by_module : List Str → List Str → List Str → Str → List Str
by_module for_home for_auth for_health i =
    if i == home
    then for_home
    else if i == auth
    then for_auth
    else if i == health
    then for_health
    else []

unfoldable pub render_git_ignore : Str
render_git_ignore = str ".agent/*\ndata/*\n"

unfoldable pub render_readme_modules : List Str → Str
unfolding join
render_readme_modules module_ids = elim (normalize_module_ids module_ids) [
  | [] ↦ str "- none"
  | i ∷ ids ↦ join newline (map (λ j. str "- " ++ j) (i ∷ ids))
]

unfoldable pub render_readme : Options → Str
unfolding render_readme_modules
render_readme options =
    str "# "
    ++ options.project_name
    ++ str "\n\nGenerated by `kumacore`.\n\n## Modules\n\n"
    ++ render_readme_modules options.modules
    ++ str
        "\n\n## Start\n\n1. Run `go run ./cmd/server`.\n2. Open `http://127.0.0.1:3000`.\n\nRuntime files are written under `data/`.\n"

unfoldable pub render_job_imports : Str
unfolding join_section_lines
render_job_imports =
    join_section_lines (
      str "\tjobslogging \"kumacore/app/jobs/logging\"" ∷ str "\t\"kumacore/app/jobs/backup\"" ∷ [])

abbrev render_module_imports_home : List Str
render_module_imports_home = str "\t\"kumacore/app/modules/home\"" ∷ []

abbrev render_module_imports_auth : List Str
render_module_imports_auth =
    str "\tauthmiddleware \"kumacore/app/middleware/auth\""
    ∷ str "\tauthmodule \"kumacore/app/modules/auth\""
    ∷ str "\tauthrepository \"kumacore/app/repositories/auth\""
    ∷ str "\tauthservice \"kumacore/app/services/auth\""
    ∷ str "\t\"kumacore/core/cache\""
    ∷ []

abbrev render_module_imports_health : List Str
render_module_imports_health = str "\thealthmodule \"kumacore/app/modules/health\"" ∷ []

unfoldable pub render_module_imports : List Str → Str
unfolding join_section_lines module_lines
render_module_imports modules = join_section_lines (
    module_lines
      (by_module render_module_imports_home render_module_imports_auth render_module_imports_health)
      modules)

abbrev render_module_setup_home : List Str
render_module_setup_home =
    str "\thomeHandler := home.NewHandler(renderer, configuration.App.Name)" ∷ []

abbrev render_module_setup_auth : List Str
render_module_setup_auth =
    str "\tauthRepository := authrepository.NewRepository(appDatabase)"
    ∷ str
        "\tuserCache := cache.NewCache[string, authservice.CachedUser](configuration.Core.Session.CacheTTL)"
    ∷ str
        "\tauthService, err := authservice.NewService(authRepository, configuration.Core.Session.TTL, userCache)"
    ∷ str "\tif err != nil {"
    ∷ str "\t\treturn moduleBootstrap{}, err"
    ∷ str "\t}"
    ∷ str
        "\tauthHandler := authmodule.NewHandler(renderer, authService, configuration.Core.App.Dev)"
    ∷ []

abbrev render_module_setup_health : List Str
render_module_setup_health =
    str "\thealthHandler := healthmodule.NewHandler("
    ∷ str "\t\tappDatabase,"
    ∷ str "\t\tappDialect,"
    ∷ str "\t\tnewAppMigrationSource(),"
    ∷ str "\t)"
    ∷ []

unfoldable pub render_module_setup : List Str → Str
unfolding join_section_lines module_lines
render_module_setup modules = join_section_lines (
    module_lines
      (by_module render_module_setup_home render_module_setup_auth render_module_setup_health)
      modules)

abbrev render_module_routes_home : List Str
render_module_routes_home = str "\t\t\thome.Routes(homeHandler)," ∷ []

abbrev render_module_routes_auth : List Str
render_module_routes_auth = str "\t\t\tauthmodule.Routes(authHandler)," ∷ []

abbrev render_module_routes_health : List Str
render_module_routes_health = str "\t\t\thealthmodule.Routes(healthHandler)," ∷ []

unfoldable pub render_module_routes : List Str → Str
unfolding join_section_lines module_lines
render_module_routes modules = join_section_lines (
    module_lines
      (by_module render_module_routes_home render_module_routes_auth render_module_routes_health)
      modules)

unfoldable pub render_module_middleware : List Str → Str
unfolding join_section_lines module_lines
render_module_middleware modules = join_section_lines (
    module_lines
      (λ i. if i == auth then str "\t\t\tauthmiddleware.LoadAuth(authService)," ∷ [] else [])
      modules)

unfoldable pub render_job_registrations : Str
unfolding join_section_lines
render_job_registrations = join_section_lines (
    str "\t\t\t{"
    ∷ str "\t\t\t\tName:     \"logging:cleanup\","
    ∷ str "\t\t\t\tInterval: 24 * time.Hour,"
    ∷ str "\t\t\t\tRun: func(ctx context.Context, _ any) error {"
    ∷ str "\t\t\t\t\treturn jobslogging.Cleanup(ctx, configuration.Core.Logging.Dir)"
    ∷ str "\t\t\t\t},"
    ∷ str "\t\t\t},"
    ∷ str "\t\t\t{"
    ∷ str "\t\t\t\tName:     \"backup:daily\","
    ∷ str "\t\t\t\tInterval: 24 * time.Hour,"
    ∷ str "\t\t\t\tRun: func(ctx context.Context, _ any) error {"
    ∷ str
        "\t\t\t\t\treturn backup.Run(ctx, appDatabase, workerDatabase, dataDir, backupDir, backup.SuffixDaily)"
    ∷ str "\t\t\t\t},"
    ∷ str "\t\t\t},"
    ∷ str "\t\t\t{"
    ∷ str "\t\t\t\tName:     \"backup:weekly\","
    ∷ str "\t\t\t\tInterval: 7 * 24 * time.Hour,"
    ∷ str "\t\t\t\tRun: func(ctx context.Context, _ any) error {"
    ∷ str
        "\t\t\t\t\treturn backup.Run(ctx, appDatabase, workerDatabase, dataDir, backupDir, backup.SuffixWeekly)"
    ∷ str "\t\t\t\t},"
    ∷ str "\t\t\t},"
    ∷ str "\t\t\t{"
    ∷ str "\t\t\t\tName:     \"backup:cleanup\","
    ∷ str "\t\t\t\tInterval: 24 * time.Hour,"
    ∷ str "\t\t\t\tRun: func(ctx context.Context, _ any) error {"
    ∷ str "\t\t\t\t\treturn backup.Cleanup(ctx, backupDir)"
    ∷ str "\t\t\t\t},"
    ∷ str "\t\t\t},"
    ∷ [])
