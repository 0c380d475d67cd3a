-- ===== src/Scaffold.antt =====
-- cmd/kumacore/internal/initcmd: `kumacore init`. `Modules` has modules.go, `Options` options.go and
-- the parsing of command.go, `Render` the texts of render.go, `Markers` the rewriting of sources
-- and `Plan` the rest of write.go and of command.go. `Selection`, `Copied`, `Regions` and
-- `Whole` prove.
pub mod Modules
pub mod Options
pub mod Markers
pub mod Selection
pub mod Render
pub mod Plan
pub mod Copied
pub mod Regions
pub mod Whole
mod Examples
