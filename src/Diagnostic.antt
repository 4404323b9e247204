-- ===== src/Diagnostic.antt =====
-- internal/diagnostic/didyoumean.go: suggestions for a misspelt name.
pub mod Levenshtein
pub mod Suggest
mod Samples
