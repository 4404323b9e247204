-- ===== src/WorkspaceDocs/Picker.antt =====
-- runInteractiveDocsPicker of internal/commands/workspace_docs.go. What the terminal answers to the
-- multi-select and to the confirmation are arguments, with none for an error.
pub mod Guarded
use browzer_cli.Prelude.{
  ℕ, ◌+◌, Bool, true, false, not, ◌&&◌, Option, none, some, List, [], ◌∷◌, ◌++◌, any, if◌then◌else◌,
  leb, ◌==◌, length,
}
use browzer_cli.WorkspaceDocs.Items.{
  DocPickerItem, DocDeltaPlan, merge_doc_items, compute_doc_delta, to_walker_docs,
  large_delete_message,
}
use browzer_cli.WorkspaceDocs.Submit.{
  Flags, World, Run, only, refused, no_git_repository, no_project, not_signed_in, needs_terminal,
  picker_failed, confirm_failed, large_delete, preflight_failed, nothing_to_manage, dry_run_done,
  in_sync, cancelled, is_linked, is_empty, preflight_refuses, with_loaded, execute,
}

-- `pick` is given the items and the indices that are checked at first.
pub record Terminal : Type 0 where
  pub pick : List DocPickerItem → List ℕ → Option (List ℕ)
  pub confirm : DocDeltaPlan → Option Bool

unfoldable pub selected_indices : ℕ → List DocPickerItem → List ℕ
selected_indices i [] = []
selected_indices i (it ∷ items) =
    let rest = selected_indices (i + 1) items in if it.selected then i ∷ rest else rest

-- items[i].Selected = chosen[i]
unfoldable pub set_selected : List ℕ → ℕ → List DocPickerItem → List DocPickerItem
set_selected chosen i [] = []
set_selected chosen i (it ∷ items) =
    (record it { selected = any (λ j. j == i) chosen }) ∷ set_selected chosen (i + 1) items

module _ (w : World) (t : Terminal) (f : Flags) where
  -- Behind the confirmation. A result is not printed as JSON here.
  unfoldable pub run_confirmed : DocDeltaPlan → Option Bool → Run
  unfolding execute
  run_confirmed plan none = only (refused confirm_failed)
  run_confirmed plan (some false) = only cancelled
  run_confirmed plan (some true) = execute w (record f { json = false; save = [] }) plan

  -- From the plan on.
  unfoldable pub run_plan : DocDeltaPlan → Run
  unfolding large_delete_message to_walker_docs run_confirmed
  run_plan plan =
      if leb 5 (length plan.to_delete) && not f.i_know
      then only (refused (large_delete (large_delete_message plan)))
      else if f.dry_run
      then only dry_run_done
      else if is_empty plan
      then only in_sync
      else if preflight_refuses w (plan.to_insert ++ plan.to_re_upload)
      then only (refused preflight_failed)
      else run_confirmed plan (if f.yes then some true else t.confirm plan)

  -- Behind the multi-select.
  unfoldable pub run_chosen : List DocPickerItem → Option (List ℕ) → Run
  unfolding run_plan set_selected compute_doc_delta
  run_chosen items none = only (refused picker_failed)
  run_chosen items (some chosen) =
      run_plan (compute_doc_delta (set_selected chosen 0 items) w.docs_cache)

  unfoldable pub run_picker_items : List DocPickerItem → Run
  unfolding run_chosen selected_indices
  run_picker_items [] = only nothing_to_manage
  run_picker_items (it ∷ items) =
      let selected : List ℕ = selected_indices 0 (it ∷ items) in
      run_chosen (it ∷ items) (if f.yes then some selected else t.pick (it ∷ items) selected)

  unfoldable pub run_interactive_docs_picker : Bool → Run
  unfolding run_picker_items merge_doc_items
  run_interactive_docs_picker is_tty =
      if not w.in_git_repository
      then only (refused no_git_repository)
      else if not (is_linked w.project)
      then only (refused no_project)
      else if not is_tty && not f.yes
      then only (refused needs_terminal)
      else if not w.signed_in
      then only (refused not_signed_in)
      else with_loaded w.server_docs (λ server.
        with_loaded w.local_docs (λ local. run_picker_items (merge_doc_items local server)))
