-- ===== src/Walker.antt =====
-- The part of internal/walker that is modelled: which files are never touched.
pub mod Sensitive
pub mod Delimited
mod Samples
