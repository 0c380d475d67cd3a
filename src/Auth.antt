-- ===== src/Auth.antt =====
-- app/repositories/auth, app/services/auth, app/middleware/auth: users, sessions and the requests
-- that carry them. `Repository` has the SQL, `Service` the service, `Middleware` the two middlewares,
-- `Handlers` the handlers of app/modules/auth. `Opening`, `Sessions`, `Login`, `Race` and
-- `Access` prove.
pub mod Repository
pub mod Service
pub mod Middleware
pub mod Opening
pub mod Sessions
pub mod Login
pub mod Race
pub mod Handlers
pub mod Access
mod Examples
