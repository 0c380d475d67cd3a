-- ===== src/Jobs.antt =====
-- The background jobs of app/jobs: backups of the data directory with their retention, and the
-- cleanup of old log files. `Dates` has the dates in file names, `Folder` a directory and the loop
-- that removes files from it, `Backup` app/jobs/backup, `Logs` app/jobs/logging and the log writer of
-- core/app/logging.go. `Stamps`, `Removal`, `Retention`, `Newest`, `Entries`, `Directories`, `Names`,
-- `Cleanup`, `Extensions`, `Archive`, `Created` and `Writer` prove.
pub mod Dates
pub mod Folder
pub mod Backup
pub mod Logs
pub mod Stamps
pub mod Removal
pub mod Retention
pub mod Newest
pub mod Entries
pub mod Directories
pub mod Names
pub mod Cleanup
pub mod Extensions
pub mod Archive
pub mod Created
pub mod Writer
mod Examples
