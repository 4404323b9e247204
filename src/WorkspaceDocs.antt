-- ===== src/WorkspaceDocs.antt =====
-- The command "workspace docs": internal/commands/workspace_docs.go and workspace_docs_spec.go.
pub mod Items
pub mod Spec
pub mod Submit
pub mod Sync
pub mod Picker
pub mod Command
mod Samples
