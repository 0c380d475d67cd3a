-- ===== src/Config.antt =====
-- core/config/config.go: the configuration and `Validate`. Reading the environment is envconfig's.
use kumacore.Prelude.{
  ℕ, zero, suc, ℤ, pos, negsuc, is_positive, Bool, true, false, ◌||◌, not, Result, ok, ◌>>◌,
  fail_if, if◌then◌else◌, ◌==◌, ltb, ◌≡◌, ◌≤◌, ◌⊎◌, inl, inr, Bool-cases, refl, arith,
}
use kumacore.Prelude.Text.{Str, Eq-str, str_eq_iff, str, is_empty, trim_space}

-- The fields of `CoreConfig` and `AppConfig` that `Validate` reads.
pub record Config : Type 0 where
  pub server_host : Str
  pub server_port : ℤ
  pub db_driver : Str
  pub db_path : Str
  pub logging_dir : Str
  pub session_ttl : ℤ
  pub session_cache_ttl : ℤ
  pub backup_dir : Str
  pub worker_enabled : Bool
  pub worker_db_path : Str
  pub worker_poll_interval : ℤ
  pub worker_max_attempts : ℤ
  pub app_name : Str
  pub app_root_dir : Str

pub data ConfigError : Type 0 where
  host_required port_out_of_range unsupported_driver db_path_required log_dir_required : ConfigError
  session_ttl_not_positive cache_ttl_negative backup_dir_required : ConfigError
  worker_db_path_required poll_interval_not_positive max_attempts_too_small : ConfigError
  app_name_required root_dir_required : ConfigError

-- The text is empty but for white space.
abbrev pub is_blank : Str → Bool
is_blank s = is_empty (trim_space s)

abbrev pub is_negative : ℤ → Bool
is_negative (pos n) = false
is_negative (negsuc n) = true

-- port < 1 || port > 65535
abbrev pub bad_port : ℤ → Bool
bad_port (pos n) = ltb n 1 || ltb 65535 n
bad_port (negsuc n) = true

abbrev pub sqlite_driver : Str
sqlite_driver = str "sqlite"

unfoldable pub validate_worker : Config → Result ConfigError (Unit {0})
validate_worker configuration =
    if configuration.worker_enabled
    then (fail_if (is_blank configuration.worker_db_path) worker_db_path_required
        >> fail_if (not (is_positive configuration.worker_poll_interval)) poll_interval_not_positive
        >> fail_if (not (is_positive configuration.worker_max_attempts)) max_attempts_too_small)
    else ok tt

unfoldable pub validate : Config → Result ConfigError (Unit {0})
unfolding validate_worker
validate configuration =
    fail_if (is_blank configuration.server_host) host_required
    >> fail_if (bad_port configuration.server_port) port_out_of_range
    >> fail_if (not (configuration.db_driver == sqlite_driver)) unsupported_driver
    >> fail_if (is_blank configuration.db_path) db_path_required
    >> fail_if (is_blank configuration.logging_dir) log_dir_required
    >> fail_if (not (is_positive configuration.session_ttl)) session_ttl_not_positive
    >> fail_if (is_negative configuration.session_cache_ttl) cache_ttl_negative
    >> fail_if (is_blank configuration.backup_dir) backup_dir_required
    >> validate_worker configuration
    >> fail_if (is_blank configuration.app_name) app_name_required
    >> fail_if (is_blank configuration.app_root_dir) root_dir_required

-- What the server relies on.
pub record IsUsable (configuration : Config) : Type 0 where
  pub port : (n : ℕ) × (configuration.server_port ≡ pos n) × (1 ≤ n) × (n ≤ 65535)
  pub driver : configuration.db_driver ≡ sqlite_driver
  pub session : (n : ℕ) × (configuration.session_ttl ≡ pos (suc n))
  pub cache : (n : ℕ) × (configuration.session_cache_ttl ≡ pos n)
  pub worker :
      (configuration.worker_enabled ≡ false)
      ⊎ ((is_blank configuration.worker_db_path ≡ false)
          × ((n : ℕ) × (configuration.worker_poll_interval ≡ pos (suc n)))
          × ((n : ℕ) × (configuration.worker_max_attempts ≡ pos (suc n))))
  pub texts :
      (is_blank configuration.server_host ≡ false)
      × (is_blank configuration.db_path ≡ false)
      × (is_blank configuration.logging_dir ≡ false)
      × (is_blank configuration.backup_dir ≡ false)
      × (is_blank configuration.app_name ≡ false)
      × (is_blank configuration.app_root_dir ≡ false)

pos_of : (z : ℤ) → is_positive z ≡ true → (n : ℕ) × (z ≡ pos (suc n))
pos_of (pos zero) h = absurd (ground arith)
pos_of (pos (suc n)) h = (n, refl)
pos_of (negsuc n) h = cc

nonneg_of : (z : ℤ) → is_negative z ≡ false → (n : ℕ) × (z ≡ pos n)
nonneg_of (pos n) h = (n, refl)
nonneg_of (negsuc n) h = cc

port_of : (z : ℤ) → bad_port z ≡ false → (n : ℕ) × (z ≡ pos n) × (1 ≤ n) × (n ≤ 65535)
port_of (pos n) h = (n, refl, ground arith, ground arith)
port_of (negsuc n) h = cc

-- A configuration that passes has a port from 1 to 65535, the SQLite driver, a positive session time
-- to live, a cache time to live that is not negative, no blank text where one is needed, and, when
-- the worker is enabled, a database path, a positive poll interval and at least one attempt.
pub validate-IsUsable :
    (configuration : Config) → validate configuration ≡ ok tt → IsUsable configuration
unfolding validate
validate-IsUsable configuration h = record {
  port = port_of configuration.server_port (ground arith);
  driver = (str_eq_iff configuration.db_driver sqlite_driver).0 (ground arith);
  session = pos_of configuration.session_ttl (ground arith);
  cache = nonneg_of configuration.session_cache_ttl (ground arith);
  worker = elim (Bool-cases configuration.worker_enabled) [
    | inr off ↦ inl off
    | inl on ↦ inr (
      ground arith,
      pos_of configuration.worker_poll_interval (ground arith),
      pos_of configuration.worker_max_attempts (ground arith),
    )
  ];
  texts = (ground arith, ground arith, ground arith, ground arith, ground arith, ground arith);
}
