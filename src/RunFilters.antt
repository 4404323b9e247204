-- ===== src/RunFilters.antt =====
-- internal/commands/runfilters: the filters that `browzer run` applies to a command's output.
pub mod Lines
pub mod LineFilter
pub mod Checks
pub mod CargoTest
pub mod GoTest
pub mod Git
pub mod Registry
