-- ===== src/Hooks.antt =====
-- The parts of internal/hooks that are modelled.
pub mod Lock
pub mod StripQuoted
pub mod BashPatterns
pub mod Gate
pub mod Paths
pub mod RewriteBash
