-- ===== src/Samples.antt =====
-- A configuration, and a file name with two dots, for core/config/config.go and core/media/media.go.
use kumacore.Prelude.{pos, true, ok, ◌≡◌, ◌++◌, ◌∷◌, refl, map, arith}
use kumacore.Prelude.Text.{str_eq, str, trim_space}
use kumacore.Config.{Config, validate, IsUsable, validate-IsUsable, sqlite_driver}
use kumacore.Media.{preview_type, preview_type-extension, classify, to_lower}

abbrev sample : Config
sample = record {
  server_host = str "localhost";
  server_port = pos 8080;
  db_driver = sqlite_driver;
  db_path = str "app.db";
  logging_dir = str "logs";
  session_ttl = pos 3600;
  session_cache_ttl = pos 0;
  backup_dir = str "backups";
  worker_enabled = true;
  worker_db_path = str "worker.db";
  worker_poll_interval = pos 5;
  worker_max_attempts = pos 3;
  app_name = str "kumacore";
  app_root_dir = str ".";
}

sample_valid : validate sample ≡ ok tt
unfolding validate str_eq trim_space
sample_valid = refl

validate-IsUsable_example : IsUsable sample
validate-IsUsable_example = validate-IsUsable sample sample_valid

preview_type-extension_example :
    preview_type (str "a.b" ++ b'.' ∷ str "PNG") ≡ classify (b'.' ∷ map to_lower (str "PNG"))
preview_type-extension_example =
    preview_type-extension (str "a.b") (str "PNG")
      (ground arith, (ground arith, (ground arith, tt)))
