-- ===== src/Migrate.antt =====
-- core/db/migrate/migrate.go: the validation and application of SQL migrations. `Filename` parses
-- the names of migration files, `Files` reads a directory of them, `Plan` compares them with what is
-- applied, `Apply` runs a plan in a transaction. The other modules prove.
pub mod Types
pub mod Filename
pub mod Files
pub mod Plan
pub mod Apply
pub mod Sequence
pub mod Prefix
pub mod Atomic
mod Examples
