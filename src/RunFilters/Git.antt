-- ===== src/RunFilters/Git.antt =====
-- internal/commands/runfilters/git.go
pub mod Diff
mod Samples
