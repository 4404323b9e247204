-- ===== src/Upload/Cached.antt =====
-- What an upload records in the cache.
use browzer_cli.Prelude.{
  All-take, All-drop, ℕ, zero, suc, ◌+◌, Bool, true, false, Option, none, some, List, [], ◌∷◌, ◌++◌,
  ◌≡◌, refl, sym, ap, ◌∙◌, subst, All, take, drop, length, ltb, Bool-cases, Option-cases, inl, inr,
  map,
}
use browzer_cli.Prelude.Text.{Text, text_eq}
use browzer_cli.Prelude.Text.Laws.{text_eq_iff, text_eq_refl}
use browzer_cli.Prelude.Assoc.{lookup, insert, lookup-insert}
use browzer_cli.Cache.Docs.{CachedDoc, DocFile}
use browzer_cli.Upload.{
  Result, Job, Ack, queued, uploaded, Final, Service, read_slots, classify_failures, cached_doc,
  cache_jobs, cache_uploaded, by_name, await_batch, on_ack, document_of, send_chunk, upload_chunk,
  upload_loop, no_result, upload_in_batches, max_doc_bytes,
}

-- A property of the entries of a cache that the new entries of the files have.
module _ (P : Text → CachedDoc → Type 0) where
  abbrev pub Entries : List (Text × CachedDoc) → Type 0
  Entries = All (λ (e : Text × CachedDoc). P e.0 e.1)

  abbrev pub Admits : DocFile → Type 0
  Admits f = (id : Text) → P f.relative_path (cached_doc f id)

  Entries-insert :
      (k : Text) (v : CachedDoc) (m : List (Text × CachedDoc))
      → P k v
      → Entries m
      → Entries (insert k v m)
  unfolding insert
  Entries-insert k v [] p h = (p, tt)
  Entries-insert k v ((j, w) ∷ m) p (q, h) = elim (Bool-cases (text_eq j k)) [
    | inl e ↦ rw e (subst (λ i. P i v) (sym ((text_eq_iff j k).0 e)) p, h)
    | inr e ↦ rw e (q, Entries-insert k v m p h)
  ]

  abbrev Slots : List (DocFile × Text) → Type 0
  Slots = All (λ (s : DocFile × Text). Admits s.0)

  module _ (S : Service) (no_wait : Bool) where
    read_slots-Slots : (chunk : List DocFile) → All Admits chunk → Slots (read_slots S chunk)
    unfolding read_slots
    read_slots-Slots [] h = tt
    read_slots-Slots (f ∷ chunk) (p, h) = elim (Bool-cases (ltb max_doc_bytes f.size)) [
      | inl e ↦ rw e (read_slots-Slots chunk h)
      | inr e ↦ elim (Option-cases (S.read_file f.absolute_path)) [
        | inl n ↦ rw (e, n) (read_slots-Slots chunk h)
        | inr (content, r) ↦ rw (e, r) (p, read_slots-Slots chunk h)
      ]
    ]

    cache_jobs-Entries :
        (jobs : List Job) (slots : List (DocFile × Text)) (files : List (Text × CachedDoc))
        → Slots slots
        → Entries files
        → Entries (cache_jobs jobs slots files)
    unfolding cache_jobs
    cache_jobs-Entries [] slots files hs h = h
    cache_jobs-Entries (j ∷ jobs) [] files hs h = h
    cache_jobs-Entries (j ∷ jobs) ((f, content) ∷ slots) files (p, hs) h =
        cache_jobs-Entries jobs slots (insert f.relative_path (cached_doc f j.document_id) files) hs
          (Entries-insert f.relative_path (cached_doc f j.document_id) files (p j.document_id) h)

    cache_uploaded-Entries :
        (ids : List (Text × Text)) (chunk : List DocFile) (files : List (Text × CachedDoc)) (n : ℕ)
        → All Admits chunk
        → Entries files
        → Entries (cache_uploaded ids chunk files n).0
    unfolding cache_uploaded
    cache_uploaded-Entries ids [] files n hs h = h
    cache_uploaded-Entries ids (f ∷ chunk) files n (p, hs) h =
        elim (Option-cases (lookup f.relative_path ids)) [
          | inl e ↦ rw (cache_uploaded, e) (cache_uploaded-Entries ids chunk files n hs h)
          | inr (id, e) ↦
              rw (cache_uploaded, e)
                (cache_uploaded-Entries ids chunk (insert f.relative_path (cached_doc f id) files)
                  (n + 1) hs (Entries-insert f.relative_path (cached_doc f id) files (p id) h))
        ]

    await_batch-Entries :
        (batch_id : Text) (jobs : List Job) (slots : List (DocFile × Text)) (res : Result)
        (files : List (Text × CachedDoc))
        → Slots slots
        → Entries files
        → Entries (await_batch S no_wait batch_id jobs slots res files).1
    unfolding await_batch
    await_batch-Entries batch_id [] slots res files hs h = h
    await_batch-Entries batch_id (j ∷ jobs) slots res files hs h = by_wait no_wait
      where
        by_wait : (w : Bool) → Entries (await_batch S w batch_id (j ∷ jobs) slots res files).1
        by_wait true = h
        by_wait false = elim (Option-cases (S.poll_batch_status batch_id)) [
          | inl e ↦ rw (await_batch, e) h
          | inr (final, e) ↦ rw (await_batch, e) (cache_jobs-Entries (j ∷ jobs) slots files hs h)
        ]

    on_ack-Entries :
        (chunk : List DocFile) (slots : List (DocFile × Text)) (ack : Option Ack) (res : Result)
        (files : List (Text × CachedDoc))
        → All Admits chunk
        → Slots slots
        → Entries files
        → Entries (on_ack S no_wait chunk slots ack res files).1
    unfolding on_ack
    on_ack-Entries chunk slots none res files hc hs h = h
    on_ack-Entries chunk slots (some (queued batch_id failures jobs)) res files hc hs h =
        await_batch-Entries batch_id jobs slots
          (classify_failures failures (record res { batch_ids = res.batch_ids ++ batch_id ∷ [] }))
          files hs h
    on_ack-Entries chunk slots (some (uploaded docs failed)) res files hc hs h =
        cache_uploaded-Entries (by_name docs []) chunk files res.uploaded_count hc h

    send_chunk-Entries :
        (chunk : List DocFile) (slots : List (DocFile × Text)) (res : Result)
        (files : List (Text × CachedDoc))
        → All Admits chunk
        → Slots slots
        → Entries files
        → Entries (send_chunk S no_wait chunk slots res files).1
    unfolding send_chunk
    send_chunk-Entries chunk [] res files hc hs h = h
    send_chunk-Entries chunk (s ∷ ss) res files hc hs h =
        let docs : List (Text × Text) = map document_of (s ∷ ss) in
        on_ack-Entries chunk (s ∷ ss) (S.batch_upload_docs docs)
          (record res { sent = res.sent ++ docs ∷ [] }) files hc hs h

    upload_loop-Entries :
        (fuel : ℕ) (docs : List DocFile) (s : Result × List (Text × CachedDoc))
        → All Admits docs
        → Entries s.1
        → Entries (upload_loop fuel S no_wait docs s).1
    unfolding upload_loop upload_chunk
    upload_loop-Entries zero docs s hd h = h
    upload_loop-Entries (suc fuel) [] s hd h = h
    upload_loop-Entries (suc fuel) (f ∷ docs) (res, files) hd h =
        let chunk : List DocFile = take 50 (f ∷ docs) in
        let hc : All Admits chunk = All-take Admits 50 (f ∷ docs) hd in
        upload_loop-Entries fuel (drop 50 (f ∷ docs)) (upload_chunk S no_wait chunk (res, files))
          (All-drop Admits 50 (f ∷ docs) hd)
          (send_chunk-Entries chunk (read_slots S chunk) _ files hc (read_slots-Slots chunk hc) h)

-- A property of cache entries that holds of the cache before and of the path, hash and size of each
-- document, with any id, holds of every entry of the cache that UploadInBatches leaves: it keeps
-- or replaces entries by those of the documents, and makes up no other, whatever the service
-- answers.
pub upload_in_batches-Entries :
    (P : Text → CachedDoc → Type 0) (S : Service) (docs : List DocFile)
    (files : List (Text × CachedDoc)) (no_wait : Bool)
    → All (Admits P) docs
    → Entries P files
    → Entries P (upload_in_batches S docs files no_wait).1
unfolding upload_in_batches
upload_in_batches-Entries P S docs files no_wait hd h =
    upload_loop-Entries P S no_wait (length docs) docs (no_result, files) hd h

-- When the service rejects the first of two documents up front and queues the second, and polling
-- succeeds, the cache records the first as uploaded, under the id of the second, and leaves the
-- entry of the second as it was. The paths differ, and both files are 5 MiB at most and can be
-- read.
pub rejected_is_cached :
    (S : Service) (f g : DocFile) (a b batch reason : Text) (job : Job) (final : Final)
    (files : List (Text × CachedDoc))
    → text_eq f.relative_path g.relative_path ≡ false
    → ltb max_doc_bytes f.size ≡ false
    → ltb max_doc_bytes g.size ≡ false
    → S.read_file f.absolute_path ≡ some a
    → S.read_file g.absolute_path ≡ some b
    → S.batch_upload_docs ((f.relative_path, a) ∷ (g.relative_path, b) ∷ [])
      ≡ some (queued batch ((f.relative_path, reason) ∷ []) (job ∷ []))
    → S.poll_batch_status batch ≡ some final
    → let after = (upload_in_batches S (f ∷ g ∷ []) files false).1 in
      (lookup f.relative_path after ≡ some (cached_doc f job.document_id))
      × (lookup g.relative_path after ≡ lookup g.relative_path files)
rejected_is_cached S f g a b batch reason job final files differ sf sg rf rg ack poll = (
  ap (lookup f.relative_path) left
      ∙ lookup-insert f.relative_path f.relative_path (cached_doc f job.document_id) files
      ∙ rw (text_eq_refl f.relative_path) refl,
  ap (lookup g.relative_path) left
      ∙ lookup-insert f.relative_path g.relative_path (cached_doc f job.document_id) files
      ∙ rw differ refl,
)
  where
    slots : read_slots S (f ∷ g ∷ []) ≡ (f, a) ∷ (g, b) ∷ []
    slots = unfold read_slots in rw (sf, rf, sg, rg) refl

    left :
        (upload_in_batches S (f ∷ g ∷ []) files false).1
        ≡ insert f.relative_path (cached_doc f job.document_id) files
    left =
        unfold upload_in_batches upload_loop upload_chunk send_chunk on_ack await_batch
          classify_failures cache_jobs in
        rw (slots, ack, await_batch, poll) refl
