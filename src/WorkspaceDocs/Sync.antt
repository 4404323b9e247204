-- ===== src/WorkspaceDocs/Sync.antt =====
-- runSyncFlow of internal/commands/workspace_sync.go, which "sync", "index" and the plain "workspace
-- docs" run. The thresholds are not negative. Printed text and the quota are left out.
pub mod Plan
pub mod Guarded
mod Samples
use browzer_cli.Prelude.{
  ℕ, ◌+◌, Bool, true, false, not, ◌&&◌, ◌||◌, Option, none, some, List, [], ◌∷◌, ◌++◌, map,
  if◌then◌else◌, ltb, ◌==◌, length,
}
use browzer_cli.Prelude.Text.{Text, codes, text_eq}
use browzer_cli.Cache.Docs.{CachedDoc, DocFile}
use browzer_cli.WorkspaceDocs.Items.{
  DocPickerItem, IndexedDocument, DocDeltaPlan, DocsSubmit, has_local, merge_doc_items,
  compute_doc_delta, empty_plan, to_walker_docs, build_submit_payload,
}
use browzer_cli.WorkspaceDocs.Submit.{
  World, Refusal, no_git_repository, no_project, not_signed_in, load_failed, preflight_failed,
  is_linked, is_empty, preflight_refuses, upload_all, delete_loop, exit_refusal,
}

pub record SyncFlowOptions : Type 0 where
  pub dry_run : Bool
  pub skip_code : Bool
  pub skip_docs : Bool
  pub force : Bool
  pub no_wait : Bool
  pub yes : Bool
  pub confirm_adds : ℕ
  pub confirm_deletes : ℕ
  pub json : Bool
  pub save : Text
  pub quiet : Bool
  pub json_mode : Text

-- What the code step meets besides: the jobs that are pending and processing, none when they cannot
-- be asked for; the answer to the question whether to proceed; the number of files of the tree; and
-- whether the service parses it.
pub record SyncWorld : Type 0 where
  pub docs : World
  pub is_tty : Bool
  pub jobs : Option (ℕ × ℕ)
  pub confirmed : Option Bool
  pub walk_repo : Option ℕ
  pub parse_workspace : Bool

pub data SyncRefusal : Type 0 where
  docs_refused : Refusal → SyncRefusal
  jobs_in_flight : ℕ → SyncRefusal
  confirm_failed : SyncRefusal
  aborted : SyncRefusal
  walk_failed : SyncRefusal
  parse_failed : SyncRefusal
  too_many_adds : ℕ → SyncRefusal
  too_many_deletes : ℕ → SyncRefusal

-- The printed result: of a sync, of its code step alone, and of "index".
pub data Payload : Type 0 where
  sync_payload : Text → Bool → Bool → Bool → ℕ → DocsSubmit → Payload
  code_payload : Text → Bool → Bool → Bool → ℕ → Payload
  index_payload : ℕ → Payload

pub data SyncOutcome : Type 0 where
  refused : SyncRefusal → SyncOutcome
  emitted : Payload → SyncOutcome
  finished : SyncOutcome

-- What a run does beyond itself: it asks the service to parse the code, with whether the service
-- does; to take documents; to delete the document of an id; and it saves the cache.
pub data Effect : Type 0 where
  parse_request : Bool → Effect
  upload_request : List DocFile → Effect
  delete_request : Text → Effect
  cache_save : List (Text × CachedDoc) → Effect

-- How a run ends, and what it has done, in order.
pub record SyncRun : Type 0 where
  pub outcome : SyncOutcome
  pub effects : List Effect

abbrev pub closed : SyncOutcome → List Effect → SyncRun
closed o done = record { outcome = o; effects = done }

abbrev pub wants_payload : SyncFlowOptions → Bool
wants_payload opts = opts.json || not (text_eq opts.save [])

-- preflightJobsInFlight: why the code step does not start.
unfoldable pub preflight_jobs_in_flight : SyncWorld → Bool → Option SyncRefusal
preflight_jobs_in_flight w quiet = elim w.jobs [
  | none ↦ none
  | some (pending, processing) ↦
      if pending + processing == 0
      then none
      else if not w.is_tty || quiet
      then some (jobs_in_flight (pending + processing))
      else elim w.confirmed [
        | none ↦ some confirm_failed
        | some answer ↦ if answer then none else some aborted
      ]
]

-- The code step: it stops the run, or it leaves the number of files; with what it has done.
pub data CodeStep : Type 0 where
  stopped : SyncRefusal → List Effect → CodeStep
  walked : ℕ → List Effect → CodeStep

unfoldable pub index_code : SyncWorld → SyncFlowOptions → CodeStep
index_code w opts = elim w.walk_repo [
  | none ↦ stopped walk_failed []
  | some n ↦
      if opts.dry_run
      then walked n []
      else if w.parse_workspace
      then walked n (parse_request true ∷ [])
      else stopped parse_failed (parse_request false ∷ [])
]

abbrev pub unless_stopped : Option SyncRefusal → CodeStep → CodeStep
unless_stopped none next = next
unless_stopped (some r) next = stopped r []

unfoldable pub code_step : SyncWorld → SyncFlowOptions → CodeStep
unfolding preflight_jobs_in_flight index_code text_eq
code_step w opts =
    if opts.skip_code
    then walked 0 []
    else if opts.force
    then index_code w opts
    else unless_stopped (preflight_jobs_in_flight w (wants_payload opts || opts.quiet))
        (index_code w opts)

-- The switch of applySyncSelection.
unfoldable pub sync_selected : DocPickerItem → DocPickerItem
unfolding has_local
sync_selected it =
    if it.indexed && not (has_local it)
    then record it { selected = false }
    else if not it.indexed && has_local it
    then record it { selected = true }
    else it

abbrev pub apply_sync_selection : List DocPickerItem → List DocPickerItem
unfolding sync_selected
apply_sync_selection = map sync_selected

abbrev pub payload : SyncFlowOptions → ℕ → DocDeltaPlan → SyncOutcome
unfolding text_eq build_submit_payload
payload opts n plan =
    if wants_payload opts
    then emitted (
        sync_payload opts.json_mode opts.dry_run opts.skip_code opts.skip_docs n
          (build_submit_payload plan))
    else finished

-- One upload, which a list with nothing in it does without.
abbrev pub upload_effects : List DocPickerItem → List Effect
unfolding to_walker_docs
upload_effects [] = []
upload_effects (it ∷ items) = upload_request (to_walker_docs (it ∷ items)) ∷ []

abbrev pub delete_effects : List DocPickerItem → List Effect
delete_effects = map (λ (d : DocPickerItem). delete_request d.server_document_id)

-- The uploads, the deletions and the saved cache; a cache that cannot be saved is a warning.
unfoldable pub execute_sync : SyncWorld → SyncFlowOptions → ℕ → List Effect → DocDeltaPlan → SyncRun
unfolding upload_all delete_loop exit_refusal to_walker_docs payload
execute_sync w opts n done plan =
    let to_upload : List DocPickerItem = plan.to_insert ++ plan.to_re_upload in
    let (result, files) = upload_all w.docs opts.no_wait to_upload w.docs.docs_cache.files in
    let (files', k) = delete_loop w.docs.delete_document plan.to_delete files 0 in
    record {
      outcome = elim (exit_refusal opts.no_wait result k) [
        | some r ↦ refused (docs_refused r)
        | none ↦ payload opts n plan
      ];
      effects =
          done
          ++ (upload_effects to_upload
              ++ (delete_effects plan.to_delete
                  ++ (if w.docs.save_succeeds then cache_save files' ∷ [] else [])));
    }

-- The thresholds, which --yes and --dry-run lift.
abbrev pub over_threshold : SyncFlowOptions → DocDeltaPlan → Option SyncRefusal
over_threshold opts plan =
    if opts.dry_run || opts.yes
    then none
    else if ltb opts.confirm_adds (length plan.to_insert)
    then some (too_many_adds (length plan.to_insert))
    else if ltb opts.confirm_deletes (length plan.to_delete)
    then some (too_many_deletes (length plan.to_delete))
    else none

abbrev pub unless_over : Option SyncRefusal → List Effect → SyncRun → SyncRun
unless_over none done next = next
unless_over (some r) done next = closed (refused r) done

-- From the plan on.
unfoldable pub sync_plan : SyncWorld → SyncFlowOptions → ℕ → List Effect → DocDeltaPlan → SyncRun
unfolding execute_sync payload
sync_plan w opts n done plan = unless_over (over_threshold opts plan) done (
    if opts.dry_run || is_empty plan
    then closed (payload opts n plan) done
    else if preflight_refuses w.docs (plan.to_insert ++ plan.to_re_upload)
    then closed (refused (docs_refused preflight_failed)) done
    else execute_sync w opts n done plan)

-- The plan for the loaded lists.
unfoldable pub plan_of : SyncWorld → List IndexedDocument → List DocFile → DocDeltaPlan
unfolding apply_sync_selection merge_doc_items compute_doc_delta
plan_of w server local =
    compute_doc_delta (apply_sync_selection (merge_doc_items local server)) w.docs.docs_cache

abbrev pub with_list : {A : Type 0} → Option A → List Effect → (A → SyncRun) → SyncRun
with_list none done next = closed (refused (docs_refused load_failed)) done
with_list (some x) done next = next x

unfoldable pub document_step : SyncWorld → SyncFlowOptions → ℕ → List Effect → SyncRun
unfolding sync_plan plan_of
document_step w opts n done = with_list w.docs.server_docs done (λ server.
    with_list w.docs.local_docs done (λ local. sync_plan w opts n done (plan_of w server local)))

-- The result of a run without the document step.
abbrev pub code_outcome : SyncFlowOptions → ℕ → SyncOutcome
unfolding text_eq
code_outcome opts n =
    if not (wants_payload opts)
    then finished
    else if text_eq opts.json_mode (codes "index")
    then emitted (index_payload n)
    else emitted (code_payload opts.json_mode opts.dry_run opts.skip_code opts.skip_docs n)

abbrev pub from_code : SyncWorld → SyncFlowOptions → CodeStep → SyncRun
unfolding document_step code_outcome
from_code w opts (stopped r done) = closed (refused r) done
from_code w opts (walked n done) =
    if opts.skip_docs then closed (code_outcome opts n) done else document_step w opts n done

unfoldable pub run_sync_flow : SyncWorld → SyncFlowOptions → SyncRun
unfolding from_code code_step
run_sync_flow w opts =
    if not w.docs.in_git_repository
    then closed (refused (docs_refused no_git_repository)) []
    else if not (is_linked w.docs.project)
    then closed (refused (docs_refused no_project)) []
    else if not w.docs.signed_in
    then closed (refused (docs_refused not_signed_in)) []
    else from_code w opts (code_step w opts)
