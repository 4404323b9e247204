-- ===== src/Daemon.antt =====
-- The parts of internal/daemon that are modelled.
pub mod ManifestCache
