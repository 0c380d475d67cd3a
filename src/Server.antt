-- ===== src/Server.antt =====
-- cmd/server: what the program puts together at its start, with core/db/db.go and the opening of
-- SQLite in core/db/sqlite/sqlite.go. The package net/url, the driver and the steps of `main` that
-- other packages do are parameters or answers; a configuration is one that `Load` has read.
pub mod Boot
mod Examples
use kumacore.Prelude.{
  ℕ, ◌*◌, ℤ, pos, Bool, true, false, ◌||◌, not, Option, none, some, List, [], ◌∷◌, ◌++◌, Result, ok,
  err, ◌>>=◌, ◌>>◌, fail_if, if◌then◌else◌, ◌==◌,
}
use kumacore.Prelude.Assoc.{Assoc, lookup, insert}
use kumacore.Prelude.Text.{Str, Eq-str, str, has_prefix, cut}
use kumacore.Config
use kumacore.Config.{Config, ConfigError, sqlite_driver}
use kumacore.Worker.Runtime.{Run, Job, Runtime, RuntimeError, new_runtime}

-- url.Values, and what is used of net/url
abbrev pub UrlValues : Type 0
UrlValues = Assoc Str (List Str)

pub record UrlPackage : Type 0 where
  pub parse_query : Str → Option UrlValues
  pub encode : UrlValues → Str

pub data OpenError : Type 0 where
  make_directory_failed bad_query sql_open_failed : OpenError
  unsupported_driver : Str → OpenError

-- A pool of connections: the text that it was opened with, and the limit on its number.
pub record Connection : Type 0 where
  pub dsn : Str
  pub max_open : Option ℕ

unfoldable pub add_value : Str → Str → UrlValues → UrlValues
unfolding lookup insert
add_value name value values =
    insert name (elim (lookup name values) [ none ↦ value ∷ [] | some vs ↦ vs ++ value ∷ [] ])
      values

abbrev pub base_and_query : Option (Str × Str) → Str → Str × Str
base_and_query none path = (path, [])
base_and_query (some (before, after)) path = (before, after)

-- `dsnOptionsWithPragmas`
unfoldable pub dsn_options_with_pragmas : UrlPackage → Str → Result OpenError Str
unfolding cut add_value
dsn_options_with_pragmas url path =
    let (base_path, raw_query) = base_and_query (cut b'?' path) path in
    elim (url.parse_query raw_query) [
      | none ↦ err bad_query
      | some values ↦ ok (
          base_path
          ++ b'?'
            ∷ url.encode (
                add_value (str "_pragma") (str "foreign_keys(ON)")
                  (add_value (str "_pragma") (str "journal_mode(WAL)") values)))
    ]

abbrev pub is_memory : Str → Bool
is_memory path = path == str ":memory:" || has_prefix path (str "file::memory:")

-- `sqlite.Open`
unfoldable pub open_sqlite : UrlPackage → Bool → Str → Result OpenError Connection
unfolding dsn_options_with_pragmas has_prefix
open_sqlite url sql_open_fails path = do
  dsn ← dsn_options_with_pragmas url path
  fail_if sql_open_fails sql_open_failed
  ok (record { dsn = dsn; max_open = if is_memory path then some 1 else none })

-- `db.Open`, whose dialect is that of SQLite
unfoldable pub open_database : UrlPackage → Bool → Str → Str → Result OpenError (Connection × Str)
unfolding open_sqlite
open_database url sql_open_fails driver_name path = do
  fail_if (not (driver_name == sqlite_driver)) (unsupported_driver driver_name)
  connection ← open_sqlite url sql_open_fails path
  ok (connection, sqlite_driver)

-- The two steps of `openAppDatabase` and of `openWorkerDatabase` that can fail.
pub record OpenFaults : Type 0 where
  pub at_make_directory : Bool
  pub at_sql_open : Bool

-- `openAppDatabase` and `openWorkerDatabase`, for the path of the one or the other
unfoldable pub open_at : UrlPackage → OpenFaults → Str → Str → Result OpenError (Connection × Str)
unfolding open_database
open_at url faults driver_name path = do
  fail_if faults.at_make_directory make_directory_failed
  open_database url faults.at_sql_open driver_name path

pub data ServerError : Type 0 where
  load_failed : ConfigError → ServerError
  backup_directory_failed renderer_failed modules_failed app_failed : ServerError
  app_database_failed worker_database_failed : OpenError → ServerError
  worker_runtime_failed : RuntimeError → ServerError

-- The functions of the four jobs.
pub record JobRuns (V : Type 0) : Type 0 where
  pub logging_cleanup : Run V
  pub backup_daily : Run V
  pub backup_weekly : Run V
  pub backup_cleanup : Run V

abbrev pub hour : ℕ
hour = 3600000000000

-- The jobs of `buildWorkerBootstrap`.
unfoldable pub server_jobs : {V : Type 0} → JobRuns V → List (Job V)
server_jobs runs =
    record {
      name = str "logging:cleanup";
      interval = pos (24 * hour);
      run = some runs.logging_cleanup;
    }
    ∷ record { name = str "backup:daily"; interval = pos (24 * hour); run = some runs.backup_daily }
    ∷ record {
      name = str "backup:weekly";
      interval = pos (7 * 24 * hour);
      run = some runs.backup_weekly;
    }
    ∷ record {
      name = str "backup:cleanup";
      interval = pos (24 * hour);
      run = some runs.backup_cleanup;
    }
    ∷ []

-- `workerBootstrap`; without a runtime the enqueuer is the one that drops what it is given.
pub record WorkerBootstrap (V : Type 0) : Type 0 where
  pub runtime : Option (Runtime V)
  pub jobs : List (Job V)

-- What `buildWorkerBootstrap` does once the database is open.
unfoldable pub worker_bootstrap :
    {V : Type 0} → JobRuns V → Config → Result ServerError (WorkerBootstrap V)
unfolding server_jobs new_runtime
worker_bootstrap runs configuration =
    elim (new_runtime true true configuration.worker_poll_interval
      configuration.worker_max_attempts) [
        | err e ↦ err (worker_runtime_failed e)
        | ok runtime ↦ ok (record { runtime = some runtime; jobs = server_jobs runs })
      ]

-- `buildWorkerBootstrap`
unfoldable pub build_worker_bootstrap :
    {V : Type 0}
    → JobRuns V
    → UrlPackage
    → OpenFaults
    → Config
    → Result ServerError (WorkerBootstrap V)
unfolding open_at worker_bootstrap
build_worker_bootstrap runs url faults configuration =
    if not configuration.worker_enabled
    then ok (record { runtime = none; jobs = [] })
    else elim (open_at url faults configuration.db_driver configuration.worker_db_path) [
      | err e ↦ err (worker_database_failed e)
      | ok opened ↦ worker_bootstrap runs configuration
    ]

-- The steps of `main` that other packages do, in their order.
pub record MainFaults : Type 0 where
  pub at_backup_directory : Bool
  pub at_renderer : Bool
  pub at_app_database : OpenFaults
  pub at_worker_database : OpenFaults
  pub at_dummy_hash : Bool

-- What `main` hands to `app.New`.
pub record Assembled (V : Type 0) : Type 0 where
  pub app_database : Connection
  pub dialect_name : Str
  pub bootstrap : WorkerBootstrap V

-- `main` up to `app.New`: `Load` has read the configuration and validates it.
unfoldable pub assemble :
    {V : Type 0} → JobRuns V → UrlPackage → MainFaults → Config → Result ServerError (Assembled V)
unfolding build_worker_bootstrap
assemble runs url faults configuration = elim (Config.validate configuration) [
  | err e ↦ err (load_failed e)
  | ok u ↦
      fail_if faults.at_backup_directory backup_directory_failed
      >> fail_if faults.at_renderer renderer_failed
      >> elim (open_at url faults.at_app_database configuration.db_driver configuration.db_path) [
        | err e ↦ err (app_database_failed e)
        | ok (connection, dialect_name) ↦
            build_worker_bootstrap runs url faults.at_worker_database configuration >>= λ bootstrap.
            fail_if faults.at_dummy_hash modules_failed
            >> ok (record {
              app_database = connection;
              dialect_name = dialect_name;
              bootstrap = bootstrap;
            })
      ]
]
