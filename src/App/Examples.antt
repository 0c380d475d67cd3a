-- ===== src/App/Examples.antt =====
-- An application with a worker that is enabled: the registration of a job fails, or all goes well.
use kumacore.Prelude.{true, false, none, some, [], ◌∷◌, ◌≡◌, ◌⊎◌, refl}
use kumacore.App.Lifecycle.{
  App, AppOptions, InitAnswers, initialize, start, is_none, logging_failed, server_failed,
  worker_started, served,
}
use kumacore.App.Closing.{IsClosed, initialize_ends, start_ends, closing}

abbrev with_worker : AppOptions
with_worker = record { has_worker = true; has_renderer = true; worker_enabled = true }

abbrev new_app : App
new_app = record {
  options = with_worker;
  has_router = false;
  database_open = true;
  log_open = false;
  events = [];
}

abbrev initialized_app : App
initialized_app = record {
  options = with_worker;
  has_router = true;
  database_open = true;
  log_open = true;
  events = [];
}

abbrev bad_registration : InitAnswers
bad_registration = record {
  logging = true;
  migrations = none;
  worker_initialize = true;
  worker_register = false;
  renderer = true;
}

initialize_ends_example :
    let (app', failed) = initialize bad_registration new_app in
    ((failed ≡ none)
      × (app'.has_router ≡ true)
      × (app'.log_open ≡ true)
      × (app'.database_open ≡ true))
    ⊎ ((is_none failed ≡ false) × IsClosed app')
    ⊎ ((failed ≡ some logging_failed) × (true ≡ false) × (app' ≡ new_app))
initialize_ends_example = initialize_ends bad_registration new_app refl

start_ends_example :
    let (app', failed) = start (some server_failed) initialized_app in
    (failed ≡ some server_failed)
    × IsClosed app'
    × (app'.events ≡ worker_started ∷ served ∷ closing with_worker)
start_ends_example = start_ends (some server_failed) initialized_app refl refl refl
