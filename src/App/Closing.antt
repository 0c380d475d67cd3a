-- ===== src/App/Closing.antt =====
-- What an application leaves open (core/app/lifecycle.go).
use kumacore.Prelude.{
  Bool, true, false, ◌&&◌, not, Option, none, some, List, [], ◌∷◌, ◌++◌, ◌≡◌, ◌⊎◌, inl, inr, refl,
  if◌then◌else◌, Bool-cases, append_assoc, append-nil, ◌∙◌, ap, sym,
}
use kumacore.Migrate.Types.{MigrateError}
use kumacore.App.Lifecycle.{
  App, AppOptions, AppError, Event, log_opened, log_closed, database_closed, worker_initialized,
  worker_started, worker_closed, migrated, served, close, close_worker, close_log, close_database,
  InitAnswers, initialize, initialize_worker, worker_step, logging_step, after_migrations,
  start_step, initialize_renderer, start, start_worker, is_none, logging_failed, worker_failed,
  register_failed, renderer_failed, migration_failed, fail_closed, emit,
}

-- An application that runs has its router and, for as long, its log and its database; one that has
-- none of them has made the last call.
pub record IsClosed (app : App) : Type 0 where
  pub log : app.log_open ≡ false
  pub database : app.database_open ≡ false

close_parts :
    (worker log database : Bool) (app : App)
    → app.log_open ≡ log
    → app.database_open ≡ database
    → IsClosed (close_database database (close_log log (close_worker worker app)))
unfolding close_worker close_log close_database
close_parts false false false app l d = record { log = l; database = d }
close_parts false false true app l d = record { log = l; database = refl }
close_parts false true false app l d = record { log = refl; database = d }
close_parts false true true app l d = record { log = refl; database = refl }
close_parts true false false app l d = record { log = l; database = d }
close_parts true false true app l d = record { log = l; database = refl }
close_parts true true false app l d = record { log = refl; database = d }
close_parts true true true app l d = record { log = refl; database = refl }

close-IsClosed : (app : App) → IsClosed (close app)
unfolding close
close-IsClosed app = close_parts app.options.has_worker app.log_open app.database_open app refl refl

abbrev opened : App → App
opened app = record (emit log_opened app) { log_open = true }

-- A step ends well with everything open, or fails with everything closed.
abbrev EndsOpen : App × Option AppError → Type 0
EndsOpen (app, failed) =
    (failed ≡ none) × (app.has_router ≡ true) × (app.log_open ≡ true) × (app.database_open ≡ true)

abbrev EndsClosed : App × Option AppError → Type 0
EndsClosed (app, failed) = (is_none failed ≡ false) × IsClosed app

fail_closed-EndsClosed : (e : AppError) (app : App) → EndsClosed (fail_closed e app)
fail_closed-EndsClosed e app = (refl, close-IsClosed app)

renderer_ends :
    (answers : InitAnswers) (app : App)
    → app.log_open ≡ true
    → app.database_open ≡ true
    → EndsOpen (initialize_renderer answers app) ⊎ EndsClosed (initialize_renderer answers app)
unfolding initialize_renderer
renderer_ends answers app log database =
    elim (Bool-cases (not app.options.has_renderer && not answers.renderer)) [
      | inl bad ↦ rw bad (inr (fail_closed-EndsClosed renderer_failed app))
      | inr fine ↦ rw fine (inl (refl, refl, log, database))
    ]

worker_ends :
    (has initialized registered : Bool) (answers : InitAnswers) (app : App)
    → app.log_open ≡ true
    → app.database_open ≡ true
    → let r = worker_step has initialized registered answers app in EndsOpen r ⊎ EndsClosed r
unfolding worker_step
worker_ends false initialized registered answers app log database =
    renderer_ends answers app log database
worker_ends true false registered answers app log database =
    inr (fail_closed-EndsClosed worker_failed app)
worker_ends true true false answers app log database =
    inr (fail_closed-EndsClosed register_failed (emit worker_initialized app))
worker_ends true true true answers app log database =
    renderer_ends answers (emit worker_initialized app) log database

abbrev Ends : Bool → App → App × Option AppError → Type 0
Ends logging app r =
    EndsOpen r ⊎ EndsClosed r ⊎ ((r.1 ≡ some logging_failed) × (logging ≡ false) × (r.0 ≡ app))

migrations_end :
    (migrations : Option MigrateError) (answers : InitAnswers) (app : App)
    → app.log_open ≡ true
    → app.database_open ≡ true
    → let r = after_migrations answers migrations app in EndsOpen r ⊎ EndsClosed r
unfolding initialize_worker
migrations_end (some e) answers app log database =
    inr (fail_closed-EndsClosed (migration_failed e) (emit (migrated false) app))
migrations_end none answers app log database =
    worker_ends app.options.has_worker answers.worker_initialize answers.worker_register answers
      (emit (migrated true) app) log database

logging-Ends :
    (logging : Bool) (answers : InitAnswers) (app : App)
    → app.database_open ≡ true
    → Ends logging app (logging_step logging answers app)
unfolding logging_step
logging-Ends false answers app database = inr (inr (refl, refl, refl))
logging-Ends true answers app database =
    elim (migrations_end answers.migrations answers (opened app) refl database) [
      | inl good ↦ inl good
      | inr closed ↦ inr (inl closed)
    ]

-- `Initialize` of a new application either succeeds, with the router, the log and the database open;
-- or fails with log and database closed, but for a failure to open the log, which leaves the
-- database open and the application as it was.
pub initialize_ends :
    (answers : InitAnswers) (app : App)
    → app.database_open ≡ true
    → let (app', failed) = initialize answers app in
      ((failed ≡ none)
        × (app'.has_router ≡ true)
        × (app'.log_open ≡ true)
        × (app'.database_open ≡ true))
      ⊎ ((is_none failed ≡ false) × IsClosed app')
      ⊎ ((failed ≡ some logging_failed) × (answers.logging ≡ false) × (app' ≡ app))
unfolding initialize
initialize_ends answers app database = logging-Ends answers.logging answers app database

events_parts :
    (worker log database : Bool) (app : App)
    → (close_database database (close_log log (close_worker worker app))).events
      ≡ app.events
        ++ ((if worker then worker_closed ∷ [] else [])
            ++ ((if log then log_closed ∷ [] else [])
                ++ (if database then database_closed ∷ [] else [])))
unfolding close_worker close_log close_database
events_parts false false false app = sym (append-nil app.events)
events_parts false false true app = refl
events_parts false true false app = refl
events_parts false true true app = append_assoc app.events _ _
events_parts true false false app = refl
events_parts true false true app = append_assoc app.events _ _
events_parts true true false app = append_assoc app.events _ _
events_parts true true true app = simp append_assoc refl

-- The calls of `close` when log and database are open.
abbrev pub closing : AppOptions → List Event
closing options =
    (if options.has_worker then worker_closed ∷ [] else []) ++ (log_closed ∷ database_closed ∷ [])

events-close :
    (app : App)
    → app.log_open ≡ true
    → app.database_open ≡ true
    → (close app).events ≡ app.events ++ closing app.options
unfolding close
events-close app log database =
    events_parts app.options.has_worker app.log_open app.database_open app
    ∙ ap
        (λ b.
          app.events
          ++ ((if app.options.has_worker then worker_closed ∷ [] else [])
              ++ ((if b then log_closed ∷ [] else [])
                  ++ (if app.database_open then database_closed ∷ [] else []))))
        log
    ∙ ap
        (λ b.
          app.events
          ++ ((if app.options.has_worker then worker_closed ∷ [] else [])
              ++ (log_closed ∷ (if b then database_closed ∷ [] else []))))
        database

start_events :
    (starts : Bool) (app : App)
    → app.log_open ≡ true
    → app.database_open ≡ true
    → (close (emit served (start_worker starts app))).events
      ≡ app.events
        ++ ((if starts then worker_started ∷ [] else []) ++ (served ∷ closing app.options))
unfolding start_worker
start_events false app log database =
    events-close (emit served app) log database ∙ append_assoc app.events _ _
start_events true app log database =
    events-close (emit served (emit worker_started app)) log database ∙ simp append_assoc refl

start_step_ends :
    (router : Bool) (answer : Option AppError) (app : App)
    → router ≡ true
    → app.log_open ≡ true
    → app.database_open ≡ true
    → let r = start_step router answer app in
      (r.1 ≡ answer)
      × IsClosed r.0
      × (r.0.events
          ≡ app.events
            ++ ((if app.options.has_worker && app.options.worker_enabled
                  then worker_started ∷ []
                  else [])
                ++ (served ∷ closing app.options)))
unfolding start_step
start_step_ends false answer app router log database = cc
start_step_ends true answer app router log database = (
  refl,
  close-IsClosed
      (emit served (start_worker (app.options.has_worker && app.options.worker_enabled) app)),
  start_events (app.options.has_worker && app.options.worker_enabled) app log database,
)

-- `Start` of an initialised application, however the server ends, closes the log and the database,
-- once each and in this order, after the worker.
pub start_ends :
    (answer : Option AppError) (app : App)
    → app.has_router ≡ true
    → app.log_open ≡ true
    → app.database_open ≡ true
    → let (app', failed) = start answer app in
      (failed ≡ answer)
      × IsClosed app'
      × (app'.events
          ≡ app.events
            ++ ((if app.options.has_worker && app.options.worker_enabled
                  then worker_started ∷ []
                  else [])
                ++ (served ∷ closing app.options)))
unfolding start
start_ends answer app router log database =
    start_step_ends app.has_router answer app router log database
