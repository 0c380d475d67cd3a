-- ===== src/Server/Boot.antt =====
-- What the checks of core/config/config.go are worth at the start of cmd/server.
use kumacore.Prelude.{ℤ, pos, map, true, false, Option, none, some, List, [], ◌∷◌, ◌≡◌, All}
use kumacore.Prelude.Assoc.{lookup}
use kumacore.Prelude.Text.{Str, Eq-str, str, cut}
use kumacore.Config
use kumacore.Config.{Config}
use kumacore.Worker.Runtime.{Run, Job, Runtime, register}
use kumacore.Server.{
  UrlPackage, OpenFaults, OpenError, make_directory_failed, bad_query, sql_open_failed,
  unsupported_driver, ServerError, load_failed, backup_directory_failed, renderer_failed,
  modules_failed, app_database_failed, worker_database_failed, worker_runtime_failed, app_failed,
  JobRuns, MainFaults, base_and_query,
}

-- What makes the opening of a database fail: never the driver's name.
abbrev pub IsOpenFailure : UrlPackage → OpenFaults → Str → OpenError → Type 0
IsOpenFailure url faults path make_directory_failed = faults.at_make_directory ≡ true
IsOpenFailure url faults path bad_query =
    url.parse_query (base_and_query (cut b'?' path) path).1 ≡ none
IsOpenFailure url faults path sql_open_failed = faults.at_sql_open ≡ true
IsOpenFailure url faults path (unsupported_driver name) = ⊥

-- The step outside the server that an error is due to: never the configuration or the worker.
abbrev pub IsFromOutside : UrlPackage → MainFaults → Config → ServerError → Type 0
IsFromOutside url faults configuration (load_failed e) = ⊥
IsFromOutside url faults configuration backup_directory_failed = faults.at_backup_directory ≡ true
IsFromOutside url faults configuration renderer_failed = faults.at_renderer ≡ true
IsFromOutside url faults configuration modules_failed = faults.at_dummy_hash ≡ true
IsFromOutside url faults configuration app_failed = ⊥
IsFromOutside url faults configuration (app_database_failed e) =
    IsOpenFailure url faults.at_app_database configuration.db_path e
IsFromOutside url faults configuration (worker_database_failed e) =
    (configuration.worker_enabled ≡ true)
    × IsOpenFailure url faults.at_worker_database configuration.worker_db_path e
IsFromOutside url faults configuration (worker_runtime_failed e) = ⊥

-- A worker takes the jobs that it is given, and knows each of them afterwards.
abbrev pub Takes : {V : Type 0} → List (Job V) → Runtime V → Type 0
Takes jobs runtime =
    ((register jobs runtime).1 ≡ none)
    × All (λ job. lookup job.name (register jobs runtime).0.job_map ≡ some job) jobs

-- Names, times between runs in nanoseconds, and functions.
abbrev pub timetable : {V : Type 0} → List (Job V) → List (Str × ℤ × Option (Run V))
timetable jobs = map (λ job. (job.name, job.interval, job.run)) jobs

-- The four jobs of the server: three run each day and one each week.
abbrev pub AreServerJobs : {V : Type 0} → JobRuns V → List (Job V) → Type 0
AreServerJobs runs jobs =
    timetable jobs
    ≡ (str "logging:cleanup", pos 86400000000000, some runs.logging_cleanup)
      ∷ (str "backup:daily", pos 86400000000000, some runs.backup_daily)
      ∷ (str "backup:weekly", pos 604800000000000, some runs.backup_weekly)
      ∷ (str "backup:cleanup", pos 86400000000000, some runs.backup_cleanup)
      ∷ []

abbrev pub IsStarted :
    {V : Type 0} → JobRuns V → Config → List (Job V) → Option (Runtime V) → Type 0
IsStarted runs configuration jobs none = (configuration.worker_enabled ≡ false) × (jobs ≡ [])
IsStarted runs configuration jobs (some runtime) =
    (configuration.worker_enabled ≡ true)
    × AreServerJobs runs jobs
    × Takes jobs runtime
    × (runtime.poll_interval ≡ configuration.worker_poll_interval)
    × (runtime.max_attempts ≡ configuration.worker_max_attempts)

-- None of the steps outside the server that have no error of their own has failed.
abbrev pub NoneFailed : MainFaults → Type 0
NoneFailed faults =
    (faults.at_backup_directory ≡ false)
    × (faults.at_renderer ≡ false)
    × (faults.at_dummy_hash ≡ false)
    × (faults.at_app_database.at_make_directory ≡ false)
    × (faults.at_app_database.at_sql_open ≡ false)
