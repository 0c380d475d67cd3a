-- ===== src/Server/Examples.antt =====
-- A server with its worker, whose databases can be opened.
use kumacore.Prelude.{ℕ, pos, true, false, none, some, []}
use kumacore.Prelude.Text.{str}
use kumacore.Config.{Config, sqlite_driver}
use kumacore.Server.{UrlPackage, OpenFaults, JobRuns, MainFaults}

abbrev sample : Config
sample = record {
  server_host = str "localhost";
  server_port = pos 8080;
  db_driver = sqlite_driver;
  db_path = str "app.db";
  logging_dir = str "logs";
  session_ttl = pos 3600;
  session_cache_ttl = pos 0;
  backup_dir = str "backups";
  worker_enabled = true;
  worker_db_path = str "worker.db";
  worker_poll_interval = pos 5;
  worker_max_attempts = pos 3;
  app_name = str "kumacore";
  app_root_dir = str ".";
}

abbrev quiet_runs : JobRuns ℕ
quiet_runs = record {
  logging_cleanup = λ now payload. none;
  backup_daily = λ now payload. none;
  backup_weekly = λ now payload. none;
  backup_cleanup = λ now payload. none;
}

abbrev plain_url : UrlPackage
plain_url = record { parse_query = λ query. some []; encode = λ values. [] }

abbrev no_open_faults : OpenFaults
no_open_faults = record { at_make_directory = false; at_sql_open = false }

abbrev no_main_faults : MainFaults
no_main_faults = record {
  at_backup_directory = false;
  at_renderer = false;
  at_app_database = no_open_faults;
  at_worker_database = no_open_faults;
  at_dummy_hash = false;
}
