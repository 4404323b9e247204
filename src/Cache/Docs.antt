-- ===== src/Cache/Docs.antt =====
-- DiffDocs of internal/cache/docs_cache.go: what has to be uploaded and deleted since the last sync.
pub mod Partition
mod Samples
use browzer_cli.Prelude.{
  ℕ, Bool, true, false, Option, none, some, List, [], ◌∷◌, ◌++◌, if◌then◌else◌, any,
}
use browzer_cli.Prelude.Text.{Text, text_eq}
use browzer_cli.Prelude.Assoc.{lookup, insert}

pub record CachedDoc : Type 0 where
  pub sha256 : Text
  pub document_id : Text
  pub size : ℕ

pub record DocsCache : Type 0 where
  pub version : ℕ
  pub files : List (Text × CachedDoc)

-- walker.DocFile
pub record DocFile : Type 0 where
  pub relative_path : Text
  pub absolute_path : Text
  pub sha256 : Text
  pub size : ℕ

pub record DeletedDoc : Type 0 where
  pub relative_path : Text
  pub document_id : Text

pub record Diff : Type 0 where
  pub added : List DocFile
  pub modified : List DocFile
  pub unchanged : List DocFile
  pub deleted : List DeletedDoc

-- The body of the loop over the current files.
unfoldable pub add_file : List (Text × CachedDoc) → DocFile → Diff → Diff
unfolding lookup text_eq
add_file files f d = elim (lookup f.relative_path files) [
  | some existing ↦
      if text_eq existing.sha256 f.sha256
      then record d { unchanged = d.unchanged ++ f ∷ [] }
      else record d { modified = d.modified ++ f ∷ [] }
  | none ↦ record d { added = d.added ++ f ∷ [] }
]

unfoldable pub scan_current :
    List (Text × CachedDoc)
    → List DocFile
    → List (Text × Unit {0})
    → Diff
    → List (Text × Unit {0}) × Diff
unfolding add_file insert
scan_current files [] seen d = (seen, d)
scan_current files (f ∷ current) seen d =
    scan_current files current (insert f.relative_path tt seen) (add_file files f d)

abbrev is_in : Text → List (Text × Unit {0}) → Bool
is_in path seen = elim (lookup path seen) [ some _ ↦ true | none ↦ false ]

-- The loop over prev.Files.
unfoldable pub scan_previous :
    List (Text × CachedDoc) → List (Text × Unit {0}) → List DeletedDoc → List DeletedDoc
unfolding lookup
scan_previous [] seen deleted = deleted
scan_previous ((path, entry) ∷ files) seen deleted = scan_previous files seen (
    if is_in path seen
    then deleted
    else deleted ++ (record { relative_path = path; document_id = entry.document_id }) ∷ [])

unfoldable pub diff_docs : List DocFile → DocsCache → Diff
unfolding scan_current scan_previous
diff_docs current prev =
    let (seen, d) =
      scan_current prev.files current []
        (record { added = []; modified = []; unchanged = []; deleted = [] }) in
    record d { deleted = scan_previous prev.files seen d.deleted }
