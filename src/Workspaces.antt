-- ===== src/Workspaces.antt =====
-- The manifest of workspaces that the client keeps (internal/cache/manifest.go) and its
-- reconciliation with the service (internal/commands/workspace_sync.go).
pub mod Reconcile
pub mod Manifest
mod Samples
