-- ===== src/Cache/Docs/Samples.antt =====
-- Tests of the difference, and its theorems at concrete inputs.
use browzer_cli.Prelude.{true, List, [], ◌∷◌, ◌≡◌, refl, ap}
use browzer_cli.Prelude.Text.{Text, codes, text_eq}
use browzer_cli.Prelude.Assoc.{lookup}
use browzer_cli.Cache.Docs.{CachedDoc, DocsCache, DocFile, Diff, diff_docs}
use browzer_cli.Cache.Docs.Partition.{applied, diff_docs_partition, diff_docs_complete}

abbrev doc : Text → Text → DocFile
doc path sha = record { relative_path = path; absolute_path = path; sha256 = sha; size = 1 }

abbrev entry : Text → Text → CachedDoc
entry sha id = record { sha256 = sha; document_id = id; size = 1 }

abbrev cache : DocsCache
cache = record {
  version = 1;
  files =
      (codes "a.md", entry (codes "1") (codes "A"))
      ∷ (codes "b.md", entry (codes "2") (codes "B"))
      ∷ [];
}

abbrev on_disk : List DocFile
on_disk = doc (codes "a.md") (codes "9") ∷ doc (codes "c.md") (codes "3") ∷ []

diff_docs_runs : diff_docs on_disk cache ≡ record {
  added = doc (codes "c.md") (codes "3") ∷ [];
  modified = doc (codes "a.md") (codes "9") ∷ [];
  unchanged = [];
  deleted = (record { relative_path = codes "b.md"; document_id = codes "B" }) ∷ [];
}
unfolding diff_docs
diff_docs_runs = refl

diff_docs_complete_example : applied cache (diff_docs on_disk cache) (codes "c.md") ≡ true
unfolding text_eq
diff_docs_complete_example = diff_docs_complete on_disk cache (codes "c.md")

diff_docs_partition_example :
    (diff_docs on_disk cache).modified ≡ doc (codes "a.md") (codes "9") ∷ []
unfolding lookup text_eq
diff_docs_partition_example = ap (λ (d : Diff). d.modified) (diff_docs_partition on_disk cache)

abbrev settled : List DocFile
settled = doc (codes "a.md") (codes "1") ∷ doc (codes "b.md") (codes "2") ∷ []
