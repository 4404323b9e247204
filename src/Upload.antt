-- ===== src/Upload.antt =====
-- UploadInBatches of internal/upload/pipeline.go. The files that are read, the service's answer to a
-- batch and the status that polling finds are arguments. The reads of a batch run at once and each
-- fills a slot of its own, so that their order does not matter; they are one after the other here.
pub mod Sent
pub mod Cached
mod Samples
use browzer_cli.Prelude.{
  ℕ, zero, suc, ◌+◌, ◌-◌, ◌*◌, Bool, true, false, not, ◌&&◌, ◌||◌, Option, none, some, List, [],
  ◌∷◌, ◌++◌, map, if◌then◌else◌, ltb, length, take, drop,
}
use browzer_cli.Prelude.Text.{Text, codes, text_eq}
use browzer_cli.Prelude.Assoc.{lookup, insert}
use browzer_cli.Cache.Docs.{CachedDoc, DocFile}

abbrev pub upload_batch_size : ℕ
upload_batch_size = 50

abbrev pub max_doc_bytes : ℕ
max_doc_bytes = 5 * 1024 * 1024

-- Result, with the documents of each request that was sent.
pub record Result : Type 0 where
  pub uploaded_count : ℕ
  pub failed_count : ℕ
  pub skipped_count : ℕ
  pub batch_ids : List Text
  pub failed_names : List Text
  pub skipped_names : List Text
  pub sent : List (List (Text × Text))

-- A job of a batch, and the status of one when the batch is over.
pub record Job : Type 0 where
  pub name : Text
  pub document_id : Text
  pub status : Text
  pub job_error : Text

-- The answer to a batch: what the service has queued, or what it has uploaded at once.
pub data Ack : Type 0 where
  queued : Text → List (Text × Text) → List Job → Ack
  uploaded : List (Text × Text) → List (Text × Text) → Ack

pub record Final : Type 0 where
  pub completed : ℕ
  pub failed : ℕ
  pub jobs : List Job

pub record Service : Type 0 where
  pub read_file : Text → Option Text
  pub batch_upload_docs : List (Text × Text) → Option Ack
  pub poll_batch_status : Text → Option Final

-- The slots of a chunk: the files that are small enough and can be read.
unfoldable pub read_slots : Service → List DocFile → List (DocFile × Text)
read_slots S [] = []
read_slots S (f ∷ chunk) =
    let rest = read_slots S chunk in
    if ltb max_doc_bytes f.size
    then rest
    else elim (S.read_file f.absolute_path) [ some content ↦ (f, content) ∷ rest | none ↦ rest ]

abbrev pub cached_doc : DocFile → Text → CachedDoc
cached_doc f id = record { sha256 = f.sha256; document_id = id; size = f.size }

-- The classification of the failures of a queued batch.
unfoldable pub classify_failure : Text → Text → Result → Result
unfolding text_eq
classify_failure name reason res =
    if text_eq reason (codes "DocumentDuplicateError")
    then record res {
      skipped_count = res.skipped_count + 1;
      skipped_names = res.skipped_names ++ name ∷ [];
    }
    else record res {
      failed_count = res.failed_count + 1;
      failed_names = res.failed_names ++ (name ++ (codes ": " ++ reason)) ∷ [];
    }

unfoldable pub classify_failures : List (Text × Text) → Result → Result
unfolding classify_failure
classify_failures [] res = res
classify_failures ((name, reason) ∷ failures) res =
    classify_failures failures (classify_failure name reason res)

-- The jobs of the answer give the ids of the uploaded files, in order.
unfoldable pub cache_jobs :
    List Job → List (DocFile × Text) → List (Text × CachedDoc) → List (Text × CachedDoc)
unfolding insert
cache_jobs [] slots files = files
cache_jobs (j ∷ jobs) [] files = files
cache_jobs (j ∷ jobs) ((f, content) ∷ slots) files =
    cache_jobs jobs slots (insert f.relative_path (cached_doc f j.document_id) files)

unfoldable pub failed_jobs : List Job → List Text
unfolding text_eq
failed_jobs [] = []
failed_jobs (j ∷ jobs) =
    let rest = failed_jobs jobs in
    if text_eq j.status (codes "failed") || not (text_eq j.job_error [])
    then j.name ∷ rest
    else rest

unfoldable pub by_name : List (Text × Text) → List (Text × Text) → List (Text × Text)
unfolding insert
by_name [] m = m
by_name ((name, id) ∷ docs) m = by_name docs (insert name id m)

-- The loop over the chunk for an answer with the ids: the new cache, and how many were uploaded.
unfoldable pub cache_uploaded :
    List (Text × Text) → List DocFile → List (Text × CachedDoc) → ℕ → List (Text × CachedDoc) × ℕ
unfolding insert lookup
cache_uploaded ids [] files n = (files, n)
cache_uploaded ids (f ∷ chunk) files n = elim (lookup f.relative_path ids) [
  | some id ↦ cache_uploaded ids chunk (insert f.relative_path (cached_doc f id) files) (n + 1)
  | none ↦ cache_uploaded ids chunk files n
]

-- Behind the failures of a queued batch: poll unless nobody waits or nothing was queued.
unfoldable pub await_batch :
    Service
    → Bool
    → Text
    → List Job
    → List (DocFile × Text)
    → Result
    → List (Text × CachedDoc)
    → Result × List (Text × CachedDoc)
unfolding cache_jobs failed_jobs
await_batch S no_wait batch_id [] slots res files = (res, files)
await_batch S true batch_id (j ∷ jobs) slots res files = (res, files)
await_batch S false batch_id (j ∷ jobs) slots res files = elim (S.poll_batch_status batch_id) [
  | none ↦ (record res { failed_count = res.failed_count + length slots }, files)
  | some final ↦ (
    record res {
      uploaded_count = res.uploaded_count + final.completed;
      failed_count = res.failed_count + final.failed;
      failed_names = res.failed_names ++ failed_jobs final.jobs;
    },
    cache_jobs (j ∷ jobs) slots files,
  )
]

unfoldable pub on_ack :
    Service
    → Bool
    → List DocFile
    → List (DocFile × Text)
    → Option Ack
    → Result
    → List (Text × CachedDoc)
    → Result × List (Text × CachedDoc)
unfolding await_batch classify_failures by_name cache_uploaded
on_ack S no_wait chunk slots none res files =
    (record res { failed_count = res.failed_count + length slots }, files)
on_ack S no_wait chunk slots (some (queued batch_id failures jobs)) res files =
    await_batch S no_wait batch_id jobs slots
      (classify_failures failures (record res { batch_ids = res.batch_ids ++ batch_id ∷ [] })) files
on_ack S no_wait chunk slots (some (uploaded docs failed)) res files =
    let (files', n) = cache_uploaded (by_name docs []) chunk files res.uploaded_count in
    (record res { uploaded_count = n; failed_count = res.failed_count + length failed }, files')

abbrev pub document_of : DocFile × Text → Text × Text
document_of (f, content) = (f.relative_path, content)

-- The upload of what was read of a chunk.
unfoldable pub send_chunk :
    Service
    → Bool
    → List DocFile
    → List (DocFile × Text)
    → Result
    → List (Text × CachedDoc)
    → Result × List (Text × CachedDoc)
unfolding on_ack
send_chunk S no_wait chunk [] res files = (res, files)
send_chunk S no_wait chunk (s ∷ ss) res files =
    let docs : List (Text × Text) = map document_of (s ∷ ss) in
    on_ack S no_wait chunk (s ∷ ss) (S.batch_upload_docs docs)
      (record res { sent = res.sent ++ docs ∷ [] }) files

-- One round of the loop over the chunks.
unfoldable pub upload_chunk :
    Service
    → Bool
    → List DocFile
    → Result × List (Text × CachedDoc)
    → Result × List (Text × CachedDoc)
unfolding read_slots send_chunk
upload_chunk S no_wait chunk (res, files) =
    let slots : List (DocFile × Text) = read_slots S chunk in
    send_chunk S no_wait chunk slots
      (record res { failed_count = res.failed_count + (length chunk - length slots) }) files

-- The loop; a round takes a file at least, so that the number of the files is enough fuel.
unfoldable pub upload_loop :
    ℕ
    → Service
    → Bool
    → List DocFile
    → Result × List (Text × CachedDoc)
    → Result × List (Text × CachedDoc)
unfolding upload_chunk
upload_loop zero S no_wait docs s = s
upload_loop (suc fuel) S no_wait [] s = s
upload_loop (suc fuel) S no_wait (f ∷ docs) s =
    upload_loop fuel S no_wait (drop upload_batch_size (f ∷ docs))
      (upload_chunk S no_wait (take upload_batch_size (f ∷ docs)) s)

abbrev pub no_result : Result
no_result = record {
  uploaded_count = 0;
  failed_count = 0;
  skipped_count = 0;
  batch_ids = [];
  failed_names = [];
  skipped_names = [];
  sent = [];
}

unfoldable pub upload_in_batches :
    Service → List DocFile → List (Text × CachedDoc) → Bool → Result × List (Text × CachedDoc)
unfolding upload_loop
upload_in_batches S docs files no_wait = upload_loop (length docs) S no_wait docs (no_result, files)
