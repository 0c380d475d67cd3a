-- ===== src/App/Lifecycle.antt =====
-- core/app/app.go, lifecycle.go and database.go: what the application holds open, and what it calls
-- in which order. The calls of the worker, the templates and the server are given by their answers.
use kumacore.Prelude.{
  ℕ, Bool, true, false, ◌&&◌, not, Option, none, some, List, [], ◌∷◌, ◌++◌, Result, ok, ◌>>◌,
  fail_if, if◌then◌else◌,
}
use kumacore.Prelude.Text.{Str, str, is_empty}
use kumacore.Migrate.Types.{Source, FileSystem, MigrateError}
use kumacore.Migrate.Plan.{Database, ReadFaults}
use kumacore.Migrate.Apply.{ApplyFaults, apply}

pub data AppError : Type 0 where
  nil_configuration nil_database nil_dialect not_initialized : AppError
  logging_failed worker_failed register_failed renderer_failed server_failed : AppError
  migration_failed : MigrateError → AppError

-- What is called from outside, in the order of the calls.
pub data Event : Type 0 where
  log_opened log_closed database_closed worker_initialized worker_started worker_closed : Event
  migrated : Bool → Event
  served : Event

-- The parts of `Options` that decide: whether there is a worker and a renderer, and whether the
-- worker is enabled.
pub record AppOptions : Type 0 where
  pub has_worker : Bool
  pub has_renderer : Bool
  pub worker_enabled : Bool

-- `App` with its `runtime`, and the calls made so far.
pub record App : Type 0 where
  pub options : AppOptions
  pub has_router : Bool
  pub database_open : Bool
  pub log_open : Bool
  pub events : List Event

-- `New`; the three flags say what is not nil
unfoldable pub new : Bool → Bool → Bool → AppOptions → Result AppError App
new has_configuration has_database has_dialect options = do
  fail_if (not has_configuration) nil_configuration
  fail_if (not has_database) nil_database
  fail_if (not has_dialect) nil_dialect
  ok (record {
    options = options;
    has_router = false;
    database_open = true;
    log_open = false;
    events = [];
  })

abbrev pub emit : Event → App → App
emit event app = record app { events = app.events ++ event ∷ [] }

-- The three steps of `close`, with their tests.
unfoldable pub close_worker : Bool → App → App
close_worker false app = app
close_worker true app = emit worker_closed app

unfoldable pub close_log : Bool → App → App
close_log false app = app
close_log true app = record (emit log_closed app) { log_open = false }

unfoldable pub close_database : Bool → App → App
close_database false app = app
close_database true app = record (emit database_closed app) { database_open = false }

-- `close`
unfoldable pub close : App → App
unfolding close_worker close_log close_database
close app =
    close_database app.database_open
      (close_log app.log_open (close_worker app.options.has_worker app))

-- What the steps of `Initialize` answer.
pub record InitAnswers : Type 0 where
  pub logging : Bool
  pub migrations : Option MigrateError
  pub worker_initialize : Bool
  pub worker_register : Bool
  pub renderer : Bool

abbrev pub is_none : {A : Type 0} → Option A → Bool
is_none none = true
is_none (some a) = false

-- An error after logging has been opened closes the application.
abbrev pub Initialized : Type 0
Initialized = App × Option AppError

abbrev pub fail_closed : AppError → App → Initialized
fail_closed e app = (close app, some e)

unfoldable pub initialize_renderer : InitAnswers → App → Initialized
unfolding close
initialize_renderer answers app =
    if not app.options.has_renderer && not answers.renderer
    then fail_closed renderer_failed app
    else (record app { has_router = true }, none)

-- The flags: there is a worker, its `Initialize` works, its `Register` works.
unfoldable pub worker_step : Bool → Bool → Bool → InitAnswers → App → Initialized
worker_step false initialized registered answers app = initialize_renderer answers app
worker_step true false registered answers app = fail_closed worker_failed app
worker_step true true false answers app = fail_closed register_failed (emit worker_initialized app)
worker_step true true true answers app = initialize_renderer answers (emit worker_initialized app)

unfoldable pub initialize_worker : InitAnswers → App → Initialized
unfolding worker_step
initialize_worker answers app =
    worker_step app.options.has_worker answers.worker_initialize answers.worker_register answers app

abbrev pub after_migrations : InitAnswers → Option MigrateError → App → Initialized
after_migrations answers none app = initialize_worker answers (emit (migrated true) app)
after_migrations answers (some e) app = fail_closed (migration_failed e) (emit (migrated false) app)

-- `initLogging` answers first.
unfoldable pub logging_step : Bool → InitAnswers → App → Initialized
logging_step false answers app = (app, some logging_failed)
logging_step true answers app =
    after_migrations answers answers.migrations (record (emit log_opened app) { log_open = true })

-- `Initialize`
unfoldable pub initialize : InitAnswers → App → Initialized
unfolding initialize_worker logging_step
initialize answers app = logging_step answers.logging answers app

unfoldable pub start_worker : Bool → App → App
start_worker false app = app
start_worker true app = emit worker_started app

-- `Start`: the server's error, or its shutdown after a signal; both end with `close`
unfoldable pub start_step : Bool → Option AppError → App → Initialized
unfolding start_worker close
start_step false answer app = (app, some not_initialized)
start_step true answer app = (
  close (emit served (start_worker (app.options.has_worker && app.options.worker_enabled) app)),
  answer,
)

unfoldable pub start : Option AppError → App → Initialized
unfolding start_step
start answer app = start_step app.has_router answer app

abbrev pub or_default : Str → Str → Str
or_default s d = if is_empty s then d else s

abbrev pub default_migration_directory : Str
default_migration_directory = str "app/migrations/sqlite/app"

-- The defaults of `runMigrations`.
unfoldable pub migration_source : FileSystem → Str → Source → Source
migration_source file_system dialect_name source = record {
  backend = or_default source.backend dialect_name;
  file_system = elim source.file_system [ none ↦ some file_system | some f ↦ some f ];
  directory = or_default source.directory default_migration_directory;
}

-- `runMigrations`: `Validate`, then `ApplyPlan`
unfoldable pub run_migrations :
    {S : Type 0}
    → (Str → Database S → Option (Database S))
    → (Str → Str)
    → ReadFaults
    → ApplyFaults
    → ℕ
    → FileSystem
    → Str
    → Source
    → Database S
    → Database S × Option MigrateError
unfolding migration_source apply
run_migrations run_script checksum read_faults faults now file_system dialect_name source db =
    apply run_script checksum read_faults faults now (some dialect_name)
      (migration_source file_system dialect_name source) db
