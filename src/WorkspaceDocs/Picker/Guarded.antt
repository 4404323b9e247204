-- ===== src/WorkspaceDocs/Picker/Guarded.antt =====
-- When the picker changes anything.
use browzer_cli.Prelude.{
  ℕ, ◌≤◌, Bool, true, false, not, ◌&&◌, Option, none, some, List, [], ◌∷◌, ◌++◌, ◌≡◌, refl, ◌⊎◌,
  inl, inr, length, map, if_split, leb, if◌then◌else◌,
}
use browzer_cli.WorkspaceDocs.Items.{
  DocPickerItem, DocDeltaPlan, merge_doc_items, compute_doc_delta, to_walker_docs,
  large_delete_message,
}
use browzer_cli.WorkspaceDocs.Submit.{
  Flags, World, Outcome, Run, only, execute, is_empty, is_linked, preflight_refuses, with_loaded,
  refused, no_git_repository, no_project, not_signed_in, needs_terminal, large_delete,
  preflight_failed, dry_run_done, in_sync,
}
use browzer_cli.WorkspaceDocs.Submit.Guarded.{IsIdle, execute-deletes, few_or_known}
use browzer_cli.WorkspaceDocs.Picker.{
  Terminal, selected_indices, set_selected, run_confirmed, run_plan, run_chosen, run_picker_items,
  run_interactive_docs_picker,
}

-- The terminal has confirmed the plan that the run carries out.
abbrev pub IsConfirmed : Terminal → Run → Type 0
IsConfirmed t r =
    (plan : DocDeltaPlan) × (t.confirm plan ≡ some true)
    × (r.uploads ≡ to_walker_docs (plan.to_insert ++ plan.to_re_upload))
    × (r.deletes ≡ map (λ (d : DocPickerItem). d.server_document_id) plan.to_delete)

unfoldable pub IsPickGuarded : Terminal → Flags → Run → Type 0
unfolding to_walker_docs
IsPickGuarded t f r =
    IsIdle r
    ⊎ ((f.dry_run ≡ false)
        × ((length r.deletes ≤ 4) ⊎ (f.i_know ≡ true))
        × ((f.yes ≡ true) ⊎ IsConfirmed t r))

module _ (w : World) (t : Terminal) (f : Flags) where
  idle-IsPickGuarded : (o : Outcome) → IsPickGuarded t f (only o)
  unfolding IsPickGuarded
  idle-IsPickGuarded o = inl (refl, refl, refl)

  idle_or :
      (b : Bool) (o : Outcome) (r : Run)
      → (b ≡ false → IsPickGuarded t f r)
      → IsPickGuarded t f (if b then only o else r)
  idle_or b o r h = if_split (IsPickGuarded t f) b (λ _. idle-IsPickGuarded o) h

  module _ (plan : DocDeltaPlan) (few : (leb 5 (length plan.to_delete) && not f.i_know) ≡ false)
      (dry : f.dry_run ≡ false) where
    executed :
        (g : Flags)
        → (f.yes ≡ true) ⊎ (t.confirm plan ≡ some true)
        → IsPickGuarded t f (execute w g plan)
    unfolding IsPickGuarded
    executed g c = inr (
      dry,
      few_or_known (length (execute w g plan).deletes) (length plan.to_delete) f.i_know
          (execute-deletes w g plan) few,
      (elim c [
        | inl y ↦ inl y
        | inr p ↦ inr (plan, p, unfold execute in refl, unfold execute in refl)
      ]),
    )

    run_confirmed-IsPickGuarded :
        (o : Option Bool)
        → (o ≡ some true → (f.yes ≡ true) ⊎ (t.confirm plan ≡ some true))
        → IsPickGuarded t f (run_confirmed w t f plan o)
    unfolding run_confirmed
    run_confirmed-IsPickGuarded none h = idle-IsPickGuarded _
    run_confirmed-IsPickGuarded (some false) h = idle-IsPickGuarded _
    run_confirmed-IsPickGuarded (some true) h =
        executed (record f { json = false; save = [] }) (h refl)

  consent :
      (agreed : Bool) (answer : Option Bool)
      → (if agreed then some true else answer) ≡ some true
      → (agreed ≡ true) ⊎ (answer ≡ some true)
  consent true answer h = inl refl
  consent false answer h = inr h

  run_plan-IsPickGuarded : (plan : DocDeltaPlan) → IsPickGuarded t f (run_plan w t f plan)
  unfolding run_plan
  run_plan-IsPickGuarded plan =
      idle_or (leb 5 (length plan.to_delete) && not f.i_know)
        (refused (large_delete (large_delete_message plan))) _
        (λ few. idle_or f.dry_run dry_run_done _ (λ dry. idle_or (is_empty plan) in_sync _ (λ _.
          idle_or (preflight_refuses w (plan.to_insert ++ plan.to_re_upload))
            (refused preflight_failed) _
            (λ _. run_confirmed-IsPickGuarded plan few dry _ (consent f.yes (t.confirm plan))))))

  run_chosen-IsPickGuarded :
      (items : List DocPickerItem) (o : Option (List ℕ))
      → IsPickGuarded t f (run_chosen w t f items o)
  unfolding run_chosen
  run_chosen-IsPickGuarded items none = idle-IsPickGuarded _
  run_chosen-IsPickGuarded items (some chosen) =
      run_plan-IsPickGuarded (compute_doc_delta (set_selected chosen 0 items) w.docs_cache)

  run_picker_items-IsPickGuarded :
      (items : List DocPickerItem) → IsPickGuarded t f (run_picker_items w t f items)
  unfolding run_picker_items
  run_picker_items-IsPickGuarded [] = idle-IsPickGuarded _
  run_picker_items-IsPickGuarded (it ∷ items) =
      let selected : List ℕ = selected_indices 0 (it ∷ items) in
      run_chosen-IsPickGuarded (it ∷ items)
        (if f.yes then some selected else t.pick (it ∷ items) selected)

  loaded-IsPickGuarded :
      {A : Type 0} (x : Option A) (rest : A → Run)
      → ((a : A) → IsPickGuarded t f (rest a))
      → IsPickGuarded t f (with_loaded x rest)
  loaded-IsPickGuarded none rest h = idle-IsPickGuarded _
  loaded-IsPickGuarded (some x) rest h = h x

  -- A run of the picker changes nothing, or --dry-run is not set, it deletes at most four documents
  -- unless --i-know-what-im-doing is set, and --yes is set or the terminal has confirmed its plan.
  pub picker-IsPickGuarded :
      (is_tty : Bool) → IsPickGuarded t f (run_interactive_docs_picker w t f is_tty)
  unfolding run_interactive_docs_picker
  picker-IsPickGuarded is_tty =
      idle_or (not w.in_git_repository) (refused no_git_repository) _ (λ _.
        idle_or (not (is_linked w.project)) (refused no_project) _ (λ _.
          idle_or (not is_tty && not f.yes) (refused needs_terminal) _ (λ _.
            idle_or (not w.signed_in) (refused not_signed_in) _ (λ _.
              loaded-IsPickGuarded w.server_docs _ (λ server.
                loaded-IsPickGuarded w.local_docs _
                  (λ local. run_picker_items-IsPickGuarded (merge_doc_items local server)))))))
