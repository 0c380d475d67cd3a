-- ===== src/Lib.antt =====
-- kumacore: a framework for web applications in Go, with the application built on it. The parts
-- modelled here are the job runner of core/worker, the cache of core/cache, the migrations of
-- core/db/migrate, the authentication of app/repositories/auth, app/services/auth and
-- app/middleware/auth with its handlers in app/modules/auth, the background jobs of app/jobs, the
-- life of the application in core/app, the page cache of core/render, the configuration of
-- core/config, the classes of files of core/media, the pages of health and static files, the assembly
-- in cmd/server, and the command `kumacore init`.
--
-- Files:
-- - Prelude: Go's strings as lists of bytes, with the functions of the package strings that the
--   code uses; maps as association lists; errors as values; arithmetic.
-- - Cache (core/cache/cache.go): `get`, `set`, `remove`, `purge`, `len`. `get_read` and `get_evict`
--   are the two locked halves of `Get`.
-- - Worker (core/worker): Table has the tables and the statements of core/worker/queries as
--   functions, Repository the methods of repository.go with their transactions, Runtime the
--   functions of worker.go and queue.go. System is the step relation of the goroutines: Enqueue,
--   processQueue, executeQueued and a restart, in any order, with any failures of the database. Life
--   is another, of Start, Close, TriggerJob, the poll loop and the loops of interval jobs: where each
--   goroutine is, the wait group and the context.
-- - Migrate (core/db/migrate/migrate.go): Filename, Files, Plan and Apply follow `Validate` and
--   `Apply` from the name of a file to the transaction.
-- - Auth: Repository has the statements of app/repositories/auth/queries, Service `Authenticate`,
--   `Logout` and `UserForToken`, which share the cache of Cache, Middleware `LoadAuth` and
--   `RequireAuth`, Handlers the handlers of app/modules/auth/handler.go. Sessions takes requests one
--   after the other, Race an overlap of two.
-- - Jobs: Backup (app/jobs/backup) has `Run` and `Cleanup` with what they call, Logs app/jobs/logging
--   and the log writer of core/app/logging.go, Dates the dates in file names, Folder the directory.
-- - App (core/app/app.go, lifecycle.go, database.go): Lifecycle has `New`, `Initialize`, `Start` and
--   `close`, with the calls they make as a list of events.
-- - Web: the static files of core/httpx/router.go, the headers of core/security/security.go, the
--   handlers of app/modules/health and app/modules/home. Server (cmd/server, core/db/db.go,
--   core/db/sqlite/sqlite.go): the assembly of the program in `main` and its jobs.
-- - Pages (core/render/manager.go): the template manager, with `resolve` and `Render`.
-- - Config (core/config/config.go): `Validate`. Media (core/media/media.go): `PreviewType`.
-- - Scaffold (cmd/kumacore/internal/initcmd): Modules and Options check what is asked for, Markers
--   rewrites marked sources, Render has the texts of render.go, Plan the planned files and the run of
--   the command.
-- - Registry (core/module): registering modules, resolving them and collecting what they add.
-- - Examples in each part, and Samples, hold concrete inputs.
--
-- A function that reads the clock takes the time, and one that calls a driver takes the error with
-- which each step fails, if it does. JSON, bcrypt, SHA-256, random bytes, the functions of jobs and
-- the run of a migration's script are arguments. Each statement and each transaction of SQLite is
-- atomic, and a commit that fails has changed nothing. Numbers are unbounded: counters of attempts
-- and times stay far below 2 ^ 63, and a sequence number is read from four characters. There is no
-- fuel: every loop is over a list.
--
-- A directory is the list of its entries, each name once, and os.Remove takes away a file or an
-- empty directory; a date in a file name has a year of four digits, and a moment is a date with the
-- nanoseconds since its midnight, in UTC but for the log writer, which is given the local date. The
-- package html/template and the file system of the templates are parameters. What the repository
-- holds when `kumacore init` runs is a parameter, and writing is a list of files or the step that
-- fails.
--
-- Names of files and projects are in ASCII where the code asks for letters. Not modelled: the HTTP
-- server and the registration of routes, the snapshot of a database and the copy of one file into an
-- archive, the reading of the environment, and the construction of handlers in cmd/server/modules.go.
-- The moves of Life take it that the function of a job returns.
mod Prelude
pub mod Cache
pub mod Worker
pub mod Migrate
pub mod Auth
pub mod Scaffold
pub mod Config
pub mod Media
pub mod Jobs
pub mod App
pub mod Pages
pub mod Web
pub mod Server
pub mod Registry
mod Samples
