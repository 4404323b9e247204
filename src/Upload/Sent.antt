-- ===== src/Upload/Sent.antt =====
-- What is sent to the service.
use browzer_cli.Prelude.{
  ℕ, zero, suc, ◌+◌, ◌-◌, ◌≤◌, Bool, Option, none, some, List, [], ◌∷◌, ◌++◌, ◌≡◌, refl, sym, ap,
  ◌∙◌, append-nil, append_assoc, arith, All, All-append, length, length-map, length-drop-le, take,
  drop, map, subst,
}
use browzer_cli.Prelude.Text.{Text}
use browzer_cli.Cache.Docs.{CachedDoc, DocFile}
use browzer_cli.Upload.{
  Result, Job, Ack, queued, uploaded, Service, read_slots, classify_failure, classify_failures,
  send_chunk, await_batch, on_ack, document_of, upload_chunk, upload_loop, no_result,
  upload_in_batches,
}

abbrev pub concat {ℓ} : {A : Type ℓ} → List (List A) → List A
concat [] = []
concat (xs ∷ xss) = xs ++ concat xss

concat-append {ℓ} : {A : Type ℓ} (a b : List (List A)) → concat (a ++ b) ≡ concat a ++ concat b
concat-append [] b = refl
concat-append (x ∷ a) b = rw (concat-append a b, append_assoc) refl

take-drop {ℓ} : {A : Type ℓ} (n : ℕ) (xs : List A) → take n xs ++ drop n xs ≡ xs
take-drop zero xs = refl
take-drop (suc n) [] = refl
take-drop (suc n) (x ∷ xs) = ap (λ ys. x ∷ ys) (take-drop n xs)

length-take-le {ℓ} : {A : Type ℓ} (n : ℕ) (xs : List A) → length (take n xs) ≤ n
length-take-le zero xs = omega arith
length-take-le (suc n) [] = omega arith
length-take-le (suc n) (x ∷ xs) = omega (arith, length-take-le n xs)

classify_failure-sent :
    (name reason : Text) (res : Result) → (classify_failure name reason res).sent ≡ res.sent
unfolding classify_failure
classify_failure-sent name reason res = ground arith

classify_failures-sent :
    (failures : List (Text × Text)) (res : Result)
    → (classify_failures failures res).sent ≡ res.sent
unfolding classify_failures
classify_failures-sent [] res = refl
classify_failures-sent ((name, reason) ∷ failures) res =
    classify_failures-sent failures (classify_failure name reason res)
    ∙ classify_failure-sent name reason res

-- Between one document and fifty.
abbrev pub IsBatch : List (Text × Text) → Type 0
IsBatch docs = (1 ≤ length docs) × (length docs ≤ 50)

module _ (S : Service) (no_wait : Bool) where
  await_batch-sent :
      (batch_id : Text) (jobs : List Job) (slots : List (DocFile × Text)) (res : Result)
      (files : List (Text × CachedDoc))
      → (await_batch S no_wait batch_id jobs slots res files).0.sent ≡ res.sent
  unfolding await_batch
  await_batch-sent batch_id [] slots res files = refl
  await_batch-sent batch_id (j ∷ jobs) slots res files = ground arith

  on_ack-sent :
      (chunk : List DocFile) (slots : List (DocFile × Text)) (ack : Option Ack) (res : Result)
      (files : List (Text × CachedDoc))
      → (on_ack S no_wait chunk slots ack res files).0.sent ≡ res.sent
  unfolding on_ack
  on_ack-sent chunk slots none res files = refl
  on_ack-sent chunk slots (some (queued batch_id failures jobs)) res files =
      let t : Result = record res { batch_ids = res.batch_ids ++ batch_id ∷ [] } in
      await_batch-sent batch_id jobs slots (classify_failures failures t) files
      ∙ classify_failures-sent failures t
  on_ack-sent chunk slots (some (uploaded docs failed)) res files = refl

  -- The batches of a chunk: one, or none if no file can be read.
  abbrev batches : List (DocFile × Text) → List (List (Text × Text))
  batches [] = []
  batches (s ∷ ss) = map document_of (s ∷ ss) ∷ []

  send_chunk-sent :
      (chunk : List DocFile) (slots : List (DocFile × Text)) (res : Result)
      (files : List (Text × CachedDoc))
      → (send_chunk S no_wait chunk slots res files).0.sent ≡ res.sent ++ batches slots
  unfolding send_chunk
  send_chunk-sent chunk [] res files = sym (append-nil res.sent)
  send_chunk-sent chunk (s ∷ ss) res files =
      let docs : List (Text × Text) = map document_of (s ∷ ss) in
      on_ack-sent chunk (s ∷ ss) (S.batch_upload_docs docs)
        (record res { sent = res.sent ++ docs ∷ [] }) files

  upload_chunk-sent :
      (chunk : List DocFile) (s : Result × List (Text × CachedDoc))
      → (upload_chunk S no_wait chunk s).0.sent ≡ s.0.sent ++ batches (read_slots S chunk)
  unfolding upload_chunk
  upload_chunk-sent chunk (res, files) =
      let slots : List (DocFile × Text) = read_slots S chunk in
      send_chunk-sent chunk slots
        (record res { failed_count = res.failed_count + (length chunk - length slots) }) files

  concat-batches : (slots : List (DocFile × Text)) → concat (batches slots) ≡ map document_of slots
  concat-batches [] = refl
  concat-batches (s ∷ ss) = append-nil (map document_of (s ∷ ss))

  map-append :
      (xs ys : List (DocFile × Text))
      → map document_of (xs ++ ys) ≡ map document_of xs ++ map document_of ys
  map-append [] ys = refl
  map-append (x ∷ xs) ys = ap (λ zs. document_of x ∷ zs) (map-append xs ys)

  read_slots-append :
      (xs ys : List DocFile) → read_slots S (xs ++ ys) ≡ read_slots S xs ++ read_slots S ys
  unfolding read_slots
  read_slots-append [] ys = refl
  read_slots-append (x ∷ xs) ys = ground (arith, read_slots-append xs ys)

  length-read_slots : (xs : List DocFile) → length (read_slots S xs) ≤ length xs
  unfolding read_slots
  length-read_slots [] = omega arith
  length-read_slots (x ∷ xs) = ground (arith, length-read_slots xs)

  batches-IsBatch :
      (slots : List (DocFile × Text)) → length slots ≤ 50 → All IsBatch (batches slots)
  batches-IsBatch [] h = tt
  batches-IsBatch (s ∷ ss) h = ((omega arith, omega (arith, length-map document_of ss)), tt)

  abbrev Sends : List DocFile → Result → Result → Type 0
  Sends docs res after =
      (concat after.sent ≡ concat res.sent ++ map document_of (read_slots S docs))
      × (All IsBatch res.sent → All IsBatch after.sent)

  upload_chunk-Sends :
      (chunk : List DocFile) (s : Result × List (Text × CachedDoc))
      → length chunk ≤ 50
      → Sends chunk s.0 (upload_chunk S no_wait chunk s).0
  upload_chunk-Sends chunk s h =
      let slots : List (DocFile × Text) = read_slots S chunk in
      (
        ap concat (upload_chunk-sent chunk s)
            ∙ concat-append s.0.sent (batches slots)
            ∙ ap (λ xs. concat s.0.sent ++ xs) (concat-batches slots),
        λ k. subst (All IsBatch) (sym (upload_chunk-sent chunk s)) (
            All-append IsBatch s.0.sent (batches slots) k
              (batches-IsBatch slots (omega (arith, length-read_slots chunk)))),
      )

  upload_loop-Sends :
      (fuel : ℕ) (docs : List DocFile) (s : Result × List (Text × CachedDoc))
      → length docs ≤ fuel
      → Sends docs s.0 (upload_loop fuel S no_wait docs s).0
  unfolding upload_loop
  upload_loop-Sends zero [] s h = (sym (append-nil (concat s.0.sent)), λ k. k)
  upload_loop-Sends zero (f ∷ docs) s h = absurd (omega arith)
  upload_loop-Sends (suc fuel) [] s h = (sym (append-nil (concat s.0.sent)), λ k. k)
  upload_loop-Sends (suc fuel) (f ∷ docs) s h =
      let chunk : List DocFile = take 50 (f ∷ docs) in
      let more : List DocFile = drop 50 (f ∷ docs) in
      let one = upload_chunk-Sends chunk s (length-take-le 50 (f ∷ docs)) in
      let rest =
        upload_loop-Sends fuel more (upload_chunk S no_wait chunk s)
          (omega (arith, length-drop-le 49 docs)) in
      (
        rest.0
            ∙ ap (λ xs. xs ++ map document_of (read_slots S more)) one.0
            ∙ append_assoc (concat s.0.sent) (map document_of (read_slots S chunk))
                (map document_of (read_slots S more))
            ∙ ap (λ xs. concat s.0.sent ++ xs)
                (sym (map-append (read_slots S chunk) (read_slots S more))
                  ∙ ap (map document_of) (
                      sym (read_slots-append chunk more)
                      ∙ ap (read_slots S) (take-drop 50 (f ∷ docs)))),
        λ k. rest.1 (one.1 k),
      )

-- UploadInBatches sends, in order and once, the documents that are 5 MiB at most and can be read, in
-- requests of one to fifty documents, whatever the service answers.
pub upload_in_batches_sends :
    (S : Service) (docs : List DocFile) (files : List (Text × CachedDoc)) (no_wait : Bool)
    → let sent = (upload_in_batches S docs files no_wait).0.sent in
      (concat sent ≡ map document_of (read_slots S docs)) × All IsBatch sent
unfolding upload_in_batches
upload_in_batches_sends S docs files no_wait =
    let all = upload_loop-Sends S no_wait (length docs) docs (no_result, files) (omega arith) in
    (all.0, all.1 tt)
