-- ===== src/Worker.antt =====
-- core/worker: the background job runner and its queue database. `Table` has the SQL statements of
-- core/worker/queries, `Repository` repository.go, `Runtime` worker.go and queue.go, `System` the
-- goroutines that run jobs of the queue, `Life` the goroutines of a runtime from `Start` to `Close`.
-- The other modules prove.
pub mod Table
pub mod Repository
pub mod Runtime
pub mod System
pub mod Register
pub mod Places
pub mod Execute
pub mod Calls
pub mod Conserve
pub mod Attempts
pub mod Limit
pub mod Life
pub mod Shutdown
pub mod Draining
pub mod Drain
mod Examples
