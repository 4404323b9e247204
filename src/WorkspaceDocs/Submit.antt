-- ===== src/WorkspaceDocs/Submit.antt =====
-- The run of "workspace docs" with --add, --remove, --replace or --plan in
-- internal/commands/workspace_docs.go, behind the checks of its flags. The picker and its confirmation,
-- which stand there too, are not reached: one of these flags is set.
pub mod Guarded
use browzer_cli.Prelude.{
  ℕ, ◌+◌, Bool, true, false, not, ◌&&◌, ◌||◌, Option, none, some, List, [], ◌∷◌, ◌++◌, map,
  if◌then◌else◌, ltb, leb, ◌==◌, length,
}
use browzer_cli.Prelude.Text.{Text, text_eq}
use browzer_cli.Cache.Docs.{CachedDoc, DocsCache, DocFile}
use browzer_cli.Upload.{Service, Result, no_result, upload_in_batches}
use browzer_cli.WorkspaceDocs.Items.{
  DocPickerItem, IndexedDocument, DocDeltaPlan, DocsSubmit, merge_doc_items, compute_doc_delta,
  to_walker_docs, build_submit_payload, large_delete_message,
}
use browzer_cli.WorkspaceDocs.Spec.{
  SpecScope, scope_add, scope_remove, scope_replace, SpecResolver, SpecError, Parsed, ok, error,
  parse_spec, ApplyResult, apply_specs_to_items,
}

pub record Flags : Type 0 where
  pub add_raw : Text
  pub remove_raw : Text
  pub replace_raw : Text
  pub dry_run : Bool
  pub yes : Bool
  pub plan_only : Bool
  pub interactive : Bool
  pub i_know : Bool
  pub no_wait : Bool
  pub json : Bool
  pub save : Text

-- The file of the project: it cannot be read, is missing, or links a workspace.
pub data Project : Type 0 where
  unreadable missing linked : Project

-- What the command meets. The lists are none when they cannot be loaded.
pub record World : Type 0 where
  pub open_file : Text → Option (List Text × Bool)
  pub in_git_repository : Bool
  pub project : Project
  pub signed_in : Bool
  pub server_docs : Option (List IndexedDocument)
  pub local_docs : Option (List DocFile)
  pub docs_cache : DocsCache
  pub preflight : List DocFile → Bool
  pub service : Service
  pub delete_document : Text → Bool
  pub save_succeeds : Bool

pub data Refusal : Type 0 where
  plan_with_flags : Refusal
  replace_with_others : Refusal
  interactive_with_json : Refusal
  bad_spec : SpecError → Refusal
  no_git_repository : Refusal
  no_project : Refusal
  not_signed_in : Refusal
  load_failed : Refusal
  paths_not_found : List Text → Refusal
  large_delete : Text → Refusal
  needs_yes : Refusal
  preflight_failed : Refusal
  save_failed : Refusal
  deletes_failed : ℕ → Refusal
  total_failure : ℕ → Refusal
  partial_failure : ℕ → ℕ → Refusal
  needs_terminal : Refusal
  picker_failed : Refusal
  confirm_failed : Refusal

pub data Outcome : Type 0 where
  refused : Refusal → Outcome
  nothing_to_manage : Outcome
  planned : List DocPickerItem → Outcome
  dry_run_done : Outcome
  in_sync : Outcome
  cancelled : Outcome
  submitted : DocsSubmit → Outcome
  re_indexed : Outcome

-- How a run ends, the files and the ids of the documents that it asks the service to take and to
-- delete, and the cache that it saves.
pub record Run : Type 0 where
  pub outcome : Outcome
  pub uploads : List DocFile
  pub deletes : List Text
  pub saved : Option (List (Text × CachedDoc))

abbrev pub only : Outcome → Run
only o = record { outcome = o; uploads = []; deletes = []; saved = none }

abbrev pub is_set : Text → Bool
is_set [] = false
is_set (c ∷ s) = true

abbrev pub wants_json : Flags → Bool
wants_json f = f.json || is_set f.save

unfoldable pub parse_flag :
    (Text → Option (List Text × Bool)) → Text → SpecScope → Parsed (Option SpecResolver)
unfolding parse_spec
parse_flag open_file [] scope = ok none
parse_flag open_file (c ∷ raw) scope = elim (parse_spec open_file (c ∷ raw) scope) [
  | ok spec ↦ ok (some spec)
  | error e ↦ error e
]

-- delete(m, path)
unfoldable pub remove_path : Text → List (Text × CachedDoc) → List (Text × CachedDoc)
unfolding text_eq
remove_path path [] = []
remove_path path ((p, e) ∷ files) =
    let rest = remove_path path files in if text_eq p path then rest else (p, e) ∷ rest

-- The loop over the deletions: the cache that is left, and how many have failed.
unfoldable pub delete_loop :
    (Text → Bool) → List DocPickerItem → List (Text × CachedDoc) → ℕ → List (Text × CachedDoc) × ℕ
unfolding remove_path
delete_loop delete_document [] files n = (files, n)
delete_loop delete_document (d ∷ ds) files n =
    if delete_document d.server_document_id
    then delete_loop delete_document ds (remove_path d.relative_path files) n
    else delete_loop delete_document ds files (n + 1)

-- Why a run that has saved its cache ends with an error.
unfoldable pub exit_refusal : Bool → Result → ℕ → Option Refusal
exit_refusal no_wait result n =
    if ltb 0 n
    then some (deletes_failed n)
    else if not no_wait && ltb 0 result.failed_count
    then (if result.uploaded_count == 0
        then some (total_failure (result.uploaded_count + result.failed_count))
        else some
            (partial_failure result.failed_count (result.uploaded_count + result.failed_count)))
    else none

-- The exit behind the saved cache.
unfoldable pub exit_outcome : Flags → DocDeltaPlan → Result → ℕ → Outcome
unfolding exit_refusal build_submit_payload
exit_outcome f plan result n = elim (exit_refusal f.no_wait result n) [
  | some r ↦ refused r
  | none ↦ if wants_json f then submitted (build_submit_payload plan) else re_indexed
]

-- The upload of a list that is not empty.
unfoldable pub upload_all :
    World → Bool → List DocPickerItem → List (Text × CachedDoc) → Result × List (Text × CachedDoc)
unfolding upload_in_batches to_walker_docs
upload_all w no_wait [] files = (no_result, files)
upload_all w no_wait (it ∷ items) files =
    upload_in_batches w.service (to_walker_docs (it ∷ items)) files no_wait

-- From the uploads on.
unfoldable pub execute : World → Flags → DocDeltaPlan → Run
unfolding upload_all delete_loop exit_outcome to_walker_docs
execute w f plan =
    let to_upload : List DocPickerItem = plan.to_insert ++ plan.to_re_upload in
    let (result, files) = upload_all w f.no_wait to_upload w.docs_cache.files in
    let (files', n) = delete_loop w.delete_document plan.to_delete files 0 in
    record {
      outcome = if w.save_succeeds then exit_outcome f plan result n else refused save_failed;
      uploads = to_walker_docs to_upload;
      deletes = map (λ (d : DocPickerItem). d.server_document_id) plan.to_delete;
      saved = if w.save_succeeds then some files' else none;
    }

abbrev pub is_empty : DocDeltaPlan → Bool
is_empty plan =
    length plan.to_insert == 0 && length plan.to_re_upload == 0 && length plan.to_delete == 0

-- Whether the preflight check, which is asked only when there is something to upload, refuses.
abbrev pub preflight_refuses : World → List DocPickerItem → Bool
preflight_refuses w items = ltb 0 (length items) && not (w.preflight (to_walker_docs items))

-- From the plan on: the guards, and then the preflight check.
unfoldable pub submit : World → Flags → DocDeltaPlan → Run
unfolding execute large_delete_message to_walker_docs
submit w f plan =
    let to_upload : List DocPickerItem = plan.to_insert ++ plan.to_re_upload in
    if leb 5 (length plan.to_delete) && not f.i_know
    then only (refused (large_delete (large_delete_message plan)))
    else if not f.yes && not (is_empty plan) && not f.dry_run
    then only (refused needs_yes)
    else if f.dry_run
    then only dry_run_done
    else if is_empty plan
    then only in_sync
    else if preflight_refuses w to_upload
    then only (refused preflight_failed)
    else execute w f plan

-- From the applied specs on.
unfoldable pub run_selected : World → Flags → ApplyResult → List DocPickerItem → Run
unfolding compute_doc_delta submit
run_selected w f res selected =
    if ltb 0 (length res.unresolved_add)
    then only (refused (paths_not_found res.unresolved_add))
    else if ltb 0 (length res.unresolved_replace)
    then only (refused (paths_not_found res.unresolved_replace))
    else submit w f (compute_doc_delta selected w.docs_cache)

-- From the merged items on.
unfoldable pub run_items :
    World
    → Flags
    → Option SpecResolver
    → Option SpecResolver
    → Option SpecResolver
    → List DocPickerItem
    → Run
unfolding apply_specs_to_items run_selected
run_items w f add remove replace [] = only nothing_to_manage
run_items w f add remove replace (it ∷ items) =
    if f.plan_only
    then only (planned (it ∷ items))
    else let (res, selected) = apply_specs_to_items (it ∷ items) add remove replace in
      run_selected w f res selected

abbrev pub is_linked : Project → Bool
is_linked unreadable = false
is_linked missing = false
is_linked linked = true

abbrev pub with_loaded : {A : Type 0} → Option A → (A → Run) → Run
with_loaded none rest = only (refused load_failed)
with_loaded (some x) rest = rest x

abbrev pub unless_ended : Option Outcome → Run → Run
unless_ended none rest = rest
unless_ended (some o) rest = only o

-- From the loading of the two lists on.
unfoldable pub run_signed_in :
    World → Flags → Option SpecResolver → Option SpecResolver → Option SpecResolver → Run
unfolding run_items merge_doc_items
run_signed_in w f add remove replace = with_loaded w.server_docs (λ server.
    with_loaded w.local_docs
      (λ local. run_items w f add remove replace (merge_doc_items local server)))

-- How a run stops between the parsed specs and the loading.
abbrev pub unready : World → Option Outcome
unready w =
    if not w.in_git_repository
    then some (refused no_git_repository)
    else if not (is_linked w.project)
    then some (refused no_project)
    else if not w.signed_in
    then some (refused not_signed_in)
    else none

-- From the parsed specs on.
unfoldable pub run_specs :
    World → Flags → Option SpecResolver → Option SpecResolver → Option SpecResolver → Run
unfolding run_signed_in
run_specs w f add remove replace = unless_ended (unready w) (run_signed_in w f add remove replace)

abbrev pub with_spec : Parsed (Option SpecResolver) → (Option SpecResolver → Run) → Run
with_spec (ok spec) rest = rest spec
with_spec (error e) rest = only (refused (bad_spec e))

-- From the specs on.
unfoldable pub run_with_specs : World → Flags → Run
unfolding parse_flag run_specs
run_with_specs w f = with_spec (parse_flag w.open_file f.add_raw scope_add) (λ add.
    with_spec (parse_flag w.open_file f.remove_raw scope_remove) (λ remove.
      with_spec (parse_flag w.open_file f.replace_raw scope_replace)
        (λ replace. run_specs w f add remove replace)))
