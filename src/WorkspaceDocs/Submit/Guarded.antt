-- ===== src/WorkspaceDocs/Submit/Guarded.antt =====
-- When "workspace docs" with a selection flag or --plan changes anything.
use browzer_cli.Prelude.{
  ℕ, ◌≤◌, Bool, true, false, not, ◌&&◌, Option, none, some, List, [], ◌∷◌, ◌++◌, ◌≡◌, refl, ◌⊎◌,
  inl, inr, arith, length, length-map, if_split, leb, ltb, if◌then◌else◌,
}
use browzer_cli.WorkspaceDocs.Items.{
  DocPickerItem, DocDeltaPlan, merge_doc_items, compute_doc_delta,
}
use browzer_cli.WorkspaceDocs.Spec.{
  SpecResolver, Parsed, ok, error, ApplyResult, scope_add, scope_remove, scope_replace,
  apply_specs_to_items,
}
use browzer_cli.WorkspaceDocs.Submit.{
  Flags, World, Outcome, Run, only, parse_flag, is_empty, preflight_refuses, refused,
  preflight_failed, paths_not_found, with_spec, with_loaded, unless_ended, unready, execute, submit,
  run_selected, run_items, run_signed_in, run_specs, run_with_specs,
}

-- No file is uploaded, no document deleted and no cache saved.
abbrev pub IsIdle : Run → Type 0
IsIdle r = (r.uploads ≡ []) × (r.deletes ≡ []) × (r.saved ≡ none)

unfoldable pub IsGuarded : Flags → Run → Type 0
IsGuarded f r =
    IsIdle r
    ⊎ ((f.yes ≡ true)
        × (f.dry_run ≡ false)
        × (f.plan_only ≡ false)
        × ((length r.deletes ≤ 4) ⊎ (f.i_know ≡ true)))

only-IsGuarded : (f : Flags) (o : Outcome) → IsGuarded f (only o)
unfolding IsGuarded
only-IsGuarded f o = inl (refl, refl, refl)

pub execute-deletes :
    (w : World) (f : Flags) (plan : DocDeltaPlan)
    → length (execute w f plan).deletes ≡ length plan.to_delete
unfolding execute
execute-deletes w f plan = length-map (λ (d : DocPickerItem). d.server_document_id) plan.to_delete

pub few_or_known :
    (n m : ℕ) (known : Bool) → n ≡ m → (leb 5 m && not known) ≡ false → (n ≤ 4) ⊎ (known ≡ true)
few_or_known n m known e h = ground arith

if_not_idle :
    (f : Flags) (b : Bool) (o : Outcome) (r : Run)
    → (b ≡ false → IsGuarded f r)
    → IsGuarded f (if b then only o else r)
if_not_idle f b o r h = if_split (IsGuarded f) b (λ _. only-IsGuarded f o) h

confirmed :
    (consent dry_run empty : Bool)
    → (not consent && not empty && not dry_run) ≡ false
    → dry_run ≡ false
    → empty ≡ false
    → consent ≡ true
confirmed consent dry_run empty h c d = ground arith

execute-IsGuarded :
    (w : World) (f : Flags) (plan : DocDeltaPlan)
    → f.plan_only ≡ false
    → (leb 5 (length plan.to_delete) && not f.i_know) ≡ false
    → (not f.yes && not (is_empty plan) && not f.dry_run) ≡ false
    → f.dry_run ≡ false
    → is_empty plan ≡ false
    → IsGuarded f (execute w f plan)
unfolding IsGuarded
execute-IsGuarded w f plan p few asked c d = inr (
  confirmed f.yes f.dry_run (is_empty plan) asked c d,
  c,
  p,
  few_or_known (length (execute w f plan).deletes) (length plan.to_delete) f.i_know
      (execute-deletes w f plan) few,
)

submit-IsGuarded :
    (w : World) (f : Flags) (plan : DocDeltaPlan)
    → f.plan_only ≡ false
    → IsGuarded f (submit w f plan)
unfolding submit
submit-IsGuarded w f plan p = if_not_idle f _ _ _ (λ few. if_not_idle f _ _ _ (λ b.
    if_not_idle f _ _ _ (λ c. if_not_idle f _ _ _ (λ d.
      if_not_idle f (preflight_refuses w (plan.to_insert ++ plan.to_re_upload))
        (refused preflight_failed) (execute w f plan)
        (λ _. execute-IsGuarded w f plan p few b c d)))))

run_selected-IsGuarded :
    (w : World) (f : Flags) (res : ApplyResult) (selected : List DocPickerItem)
    → f.plan_only ≡ false
    → IsGuarded f (run_selected w f res selected)
unfolding run_selected
run_selected-IsGuarded w f res selected p =
    if_not_idle f (ltb 0 (length res.unresolved_add)) (refused (paths_not_found res.unresolved_add))
      _
      (λ _.
        if_not_idle f (ltb 0 (length res.unresolved_replace))
          (refused (paths_not_found res.unresolved_replace))
          (submit w f (compute_doc_delta selected w.docs_cache))
          (λ _. submit-IsGuarded w f (compute_doc_delta selected w.docs_cache) p))

run_items-IsGuarded :
    (w : World) (f : Flags) (add remove replace : Option SpecResolver) (items : List DocPickerItem)
    → IsGuarded f (run_items w f add remove replace items)
unfolding run_items
run_items-IsGuarded w f add remove replace [] = only-IsGuarded f _
run_items-IsGuarded w f add remove replace (it ∷ items) = if_not_idle f _ _ _ (λ p.
    run_selected-IsGuarded w f (apply_specs_to_items (it ∷ items) add remove replace).0
      (apply_specs_to_items (it ∷ items) add remove replace).1 p)

with_loaded-IsGuarded :
    {A : Type 0} (f : Flags) (x : Option A) (rest : A → Run)
    → ((a : A) → IsGuarded f (rest a))
    → IsGuarded f (with_loaded x rest)
with_loaded-IsGuarded f none rest h = only-IsGuarded f _
with_loaded-IsGuarded f (some x) rest h = h x

with_spec-IsGuarded :
    (f : Flags) (x : Parsed (Option SpecResolver)) (rest : Option SpecResolver → Run)
    → ((a : Option SpecResolver) → IsGuarded f (rest a))
    → IsGuarded f (with_spec x rest)
with_spec-IsGuarded f (ok spec) rest h = h spec
with_spec-IsGuarded f (error e) rest h = only-IsGuarded f _

unless_ended-IsGuarded :
    (f : Flags) (o : Option Outcome) (rest : Run)
    → IsGuarded f rest
    → IsGuarded f (unless_ended o rest)
unless_ended-IsGuarded f none rest h = h
unless_ended-IsGuarded f (some o) rest h = only-IsGuarded f o

run_signed_in-IsGuarded :
    (w : World) (f : Flags) (add remove replace : Option SpecResolver)
    → IsGuarded f (run_signed_in w f add remove replace)
unfolding run_signed_in
run_signed_in-IsGuarded w f add remove replace = with_loaded-IsGuarded f w.server_docs _ (λ server.
    with_loaded-IsGuarded f w.local_docs _
      (λ local. run_items-IsGuarded w f add remove replace (merge_doc_items local server)))

run_specs-IsGuarded :
    (w : World) (f : Flags) (add remove replace : Option SpecResolver)
    → IsGuarded f (run_specs w f add remove replace)
unfolding run_specs
run_specs-IsGuarded w f add remove replace =
    unless_ended-IsGuarded f (unready w) _ (run_signed_in-IsGuarded w f add remove replace)

-- A run by specs changes nothing, or --yes is set, neither --dry-run nor --plan is, and it deletes at
-- most four documents unless --i-know-what-im-doing is set.
pub run_with_specs-IsGuarded : (w : World) (f : Flags) → IsGuarded f (run_with_specs w f)
unfolding run_with_specs
run_with_specs-IsGuarded w f =
    with_spec-IsGuarded f (parse_flag w.open_file f.add_raw scope_add) _ (λ add.
      with_spec-IsGuarded f (parse_flag w.open_file f.remove_raw scope_remove) _ (λ remove.
        with_spec-IsGuarded f (parse_flag w.open_file f.replace_raw scope_replace) _
          (λ replace. run_specs-IsGuarded w f add remove replace)))
