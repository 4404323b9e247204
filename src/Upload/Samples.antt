-- ===== src/Upload/Samples.antt =====
-- An upload of two documents, of which the service rejects the first.
use browzer_cli.Prelude.{false, some, List, [], ◌∷◌, ◌≡◌, refl, map, All}
use browzer_cli.Prelude.Text.{Text, codes, text_eq}
use browzer_cli.Prelude.Assoc.{lookup}
use browzer_cli.Cache.Docs.{DocFile}
use browzer_cli.Upload.{
  Service, Job, queued, Final, cached_doc, document_of, read_slots, upload_in_batches,
}
use browzer_cli.Upload.Sent.{upload_in_batches_sends, concat, IsBatch}
use browzer_cli.Upload.Cached.{upload_in_batches-Entries, Entries, rejected_is_cached}

abbrev file : Text → DocFile
file path = record { relative_path = path; absolute_path = path; sha256 = codes "77"; size = 9 }

abbrev job : Job
job = record {
  name = codes "b.md";
  document_id = codes "d-b";
  status = codes "queued";
  job_error = [];
}

abbrev final : Final
final = record { completed = 1; failed = 0; jobs = job ∷ [] }

abbrev service : Service
service = record {
  read_file = λ path. some (codes "text");
  batch_upload_docs =
      λ docs. some (queued (codes "batch") ((codes "a.md", codes "E") ∷ []) (job ∷ []));
  poll_batch_status = λ id. some final;
}

abbrev docs : List DocFile
docs = file (codes "a.md") ∷ file (codes "b.md") ∷ []

upload_in_batches_sends_example :
    let sent = (upload_in_batches service docs [] false).0.sent in
    (concat sent ≡ map document_of (read_slots service docs)) × All IsBatch sent
upload_in_batches_sends_example = upload_in_batches_sends service docs [] false

-- Every entry has the size of the two files.
upload_in_batches-Entries_example :
    Entries (λ path e. e.size ≡ 9) (upload_in_batches service docs [] false).1
upload_in_batches-Entries_example =
    upload_in_batches-Entries (λ path e. e.size ≡ 9) service docs [] false
      ((λ id. refl), ((λ id. refl), tt)) tt

paths_differ : text_eq (codes "a.md") (codes "b.md") ≡ false
unfolding text_eq
paths_differ = refl

rejected_is_cached_example :
    let after = (upload_in_batches service docs [] false).1 in
    (lookup (codes "a.md") after ≡ some (cached_doc (file (codes "a.md")) (codes "d-b")))
    × (lookup (codes "b.md") after ≡ lookup (codes "b.md") [])
rejected_is_cached_example =
    rejected_is_cached service (file (codes "a.md")) (file (codes "b.md")) (codes "text")
      (codes "text") (codes "batch") (codes "E") job final [] paths_differ refl refl refl refl refl
      refl
