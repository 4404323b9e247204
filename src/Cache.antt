-- ===== src/Cache.antt =====
-- internal/cache: the per-machine cache of uploaded documents.
pub mod Docs
