-- ===== src/App.antt =====
-- core/app: the life of the application. `Lifecycle` has `New`, `Initialize`, `Start` and `close` as
-- functions of what the steps between them answer, `Closing` proves. Logging to files is in Jobs.
pub mod Lifecycle
pub mod Closing
mod Examples
