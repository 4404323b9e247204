-- ===== src/WorkspaceDocs/Sync/Guarded.antt =====
-- When a sync parses the code and changes the documents, and in which order.
use browzer_cli.Prelude.{
  ℕ, ◌≤◌, Bool, true, false, not, ◌||◌, Option, none, some, List, [], ◌∷◌, ◌++◌, ◌≡◌, refl, sym,
  ◌⊎◌, inl, inr, append-nil, arith, length, if◌then◌else◌, if_split, Option-cases,
}
use browzer_cli.Prelude.Text.{Text}
use browzer_cli.Cache.Docs.{CachedDoc, DocFile}
use browzer_cli.WorkspaceDocs.Items.{IndexedDocument, DocDeltaPlan}
use browzer_cli.WorkspaceDocs.Submit.{
  is_empty, is_linked, preflight_refuses, preflight_failed, load_failed,
}
use browzer_cli.WorkspaceDocs.Sync.{
  SyncFlowOptions, SyncWorld, SyncOutcome, Effect, parse_request, cache_save, SyncRun, SyncRefusal,
  docs_refused, refused, closed, CodeStep, stopped, walked, index_code, unless_stopped, code_step,
  over_threshold, unless_over, with_list, code_outcome, upload_effects, delete_effects,
  execute_sync, sync_plan, document_step, payload, plan_of, from_code, run_sync_flow,
}

-- What the code step does: nothing, or one request to parse, which needs that neither --dry-run nor
-- --skip-code is set.
abbrev pub IsCoded : SyncFlowOptions → List Effect → Type 0
IsCoded opts code =
    (code ≡ [])
    ⊎ ((answer : Bool) × (code ≡ parse_request answer ∷ [])
        × (opts.dry_run ≡ false)
        × (opts.skip_code ≡ false))

-- The cache is saved once at most.
abbrev pub IsSave : List Effect → Type 0
IsSave saves = (saves ≡ []) ⊎ ((files : List (Text × CachedDoc)) × (saves ≡ cache_save files ∷ []))

-- A plan within the thresholds, unless --yes is set.
abbrev pub IsWithin : SyncFlowOptions → DocDeltaPlan → Type 0
IsWithin opts plan =
    (opts.yes ≡ true)
    ⊎ ((length plan.to_insert ≤ opts.confirm_adds) × (length plan.to_delete ≤ opts.confirm_deletes))

-- The uploads of a plan, then its deletions, then the cache.
abbrev pub IsCarriedOut : DocDeltaPlan → List Effect → Type 0
IsCarriedOut plan docs =
    (saves : List Effect) × (docs
      ≡ upload_effects (plan.to_insert ++ plan.to_re_upload)
        ++ (delete_effects plan.to_delete ++ saves))
    × IsSave saves

-- The plan of the loaded lists is carried out, behind a code step that has not failed.
abbrev pub MayChange : SyncWorld → SyncFlowOptions → List Effect → List Effect → Type 0
MayChange w opts code docs =
    (opts.dry_run ≡ false)
    × (opts.skip_docs ≡ false)
    × ((opts.skip_code ≡ true) ⊎ (code ≡ parse_request true ∷ []))
    × (server : List IndexedDocument) × (local : List DocFile) × (w.docs.server_docs ≡ some server)
    × (w.docs.local_docs ≡ some local)
    × IsWithin opts (plan_of w server local)
    × IsCarriedOut (plan_of w server local) docs

unfoldable pub IsSyncGuarded : SyncWorld → SyncFlowOptions → SyncRun → Type 0
IsSyncGuarded w opts r =
    (code : List Effect) × (docs : List Effect) × (r.effects ≡ code ++ docs)
    × IsCoded opts code
    × ((docs ≡ []) ⊎ MayChange w opts code docs)

-- The code step is over, and the documents may follow.
abbrev Precedes : SyncFlowOptions → List Effect → Type 0
Precedes opts code =
    IsCoded opts code
    × ((opts.skip_code ≡ true) ⊎ ((code ≡ parse_request true ∷ []) ⊎ (opts.dry_run ≡ true)))

abbrev CodeGuarded : SyncFlowOptions → CodeStep → Type 0
CodeGuarded opts (stopped r code) = IsCoded opts code
CodeGuarded opts (walked n code) = Precedes opts code

index_code-guarded :
    (w : SyncWorld) (opts : SyncFlowOptions)
    → opts.skip_code ≡ false
    → CodeGuarded opts (index_code w opts)
unfolding index_code
index_code-guarded w opts s = elim (Option-cases w.walk_repo) [
  | inl e ↦ rw e (inl refl)
  | inr (n, e) ↦ rw e (
      if_split (CodeGuarded opts) opts.dry_run (λ y. (inl refl, inr (inr y)))
        (λ y.
          if_split (CodeGuarded opts) w.parse_workspace
            (λ _. (inr (true, refl, y, s), inr (inl refl))) (λ _. inr (false, refl, y, s))))
]

unless_stopped-guarded :
    (opts : SyncFlowOptions) (o : Option SyncRefusal) (c : CodeStep)
    → CodeGuarded opts c
    → CodeGuarded opts (unless_stopped o c)
unless_stopped-guarded opts none c h = h
unless_stopped-guarded opts (some r) c h = inl refl

code_step-guarded : (w : SyncWorld) (opts : SyncFlowOptions) → CodeGuarded opts (code_step w opts)
unfolding code_step
code_step-guarded w opts =
    if_split (CodeGuarded opts) opts.skip_code (λ s. (inl refl, inl s))
      (λ s.
        if_split (CodeGuarded opts) opts.force (λ _. index_code-guarded w opts s)
          (λ _. unless_stopped-guarded opts _ _ (index_code-guarded w opts s)))

or_left : (a b : Bool) → (a || b) ≡ false → a ≡ false
or_left a b h = ground arith

over_threshold-IsWithin :
    (opts : SyncFlowOptions) (plan : DocDeltaPlan)
    → opts.dry_run ≡ false
    → over_threshold opts plan ≡ none
    → IsWithin opts plan
over_threshold-IsWithin opts plan y h = ground arith

if_saved :
    (b : Bool) (files : List (Text × CachedDoc)) → IsSave (if b then cache_save files ∷ [] else [])
if_saved true files = inr (files, refl)
if_saved false files = inl refl

execute_sync-IsCarriedOut :
    (w : SyncWorld) (opts : SyncFlowOptions) (n : ℕ) (code : List Effect) (plan : DocDeltaPlan)
    → (docs : List Effect) × ((execute_sync w opts n code plan).effects ≡ code ++ docs)
      × IsCarriedOut plan docs
unfolding execute_sync
execute_sync-IsCarriedOut w opts n code plan = (_, refl, (_, refl, if_saved w.docs.save_succeeds _))

-- The code step may stand in front, whatever else the run may do.
allowed :
    (opts : SyncFlowOptions) (code : List Effect)
    → Precedes opts code
    → opts.dry_run ≡ false
    → (opts.skip_code ≡ true) ⊎ (code ≡ parse_request true ∷ [])
allowed opts code (c, inl s) y = inl s
allowed opts code (c, inr (inl p)) y = inr p
allowed opts code (c, inr (inr d)) y = cc

module _ (w : SyncWorld) (opts : SyncFlowOptions) where
  closed-IsSyncGuarded :
      (o : SyncOutcome) (code : List Effect)
      → IsCoded opts code
      → IsSyncGuarded w opts (closed o code)
  unfolding IsSyncGuarded
  closed-IsSyncGuarded o code h = (code, [], sym (append-nil code), h, inl refl)

  module _ (n : ℕ) (code : List Effect) (c : Precedes opts code) (d : opts.skip_docs ≡ false) where
    module _ (server : List IndexedDocument) (local : List DocFile)
        (es : w.docs.server_docs ≡ some server) (el : w.docs.local_docs ≡ some local) where
      abbrev plan : DocDeltaPlan
      plan = plan_of w server local

      execute_sync-IsSyncGuarded :
          opts.dry_run ≡ false
          → over_threshold opts plan ≡ none
          → IsSyncGuarded w opts (execute_sync w opts n code plan)
      unfolding IsSyncGuarded
      execute_sync-IsSyncGuarded y o =
          let (docs, e, h) = execute_sync-IsCarriedOut w opts n code plan in
          (
            code,
            docs,
            e,
            c.0,
            inr (
              y,
              d,
              allowed opts code c y,
              server,
              local,
              es,
              el,
              over_threshold-IsWithin opts plan y o,
              h,
            ),
          )

      under_threshold :
          (o : Option SyncRefusal)
          → o ≡ over_threshold opts plan
          → IsSyncGuarded w opts (
              unless_over o code (
                if opts.dry_run || is_empty plan
                then closed (payload opts n plan) code
                else if preflight_refuses w.docs (plan.to_insert ++ plan.to_re_upload)
                then closed (refused (docs_refused preflight_failed)) code
                else execute_sync w opts n code plan))
      under_threshold none e =
          if_split (IsSyncGuarded w opts) (opts.dry_run || is_empty plan)
            (λ _. closed-IsSyncGuarded (payload opts n plan) code c.0)
            (λ y.
              if_split (IsSyncGuarded w opts)
                (preflight_refuses w.docs (plan.to_insert ++ plan.to_re_upload))
                (λ _. closed-IsSyncGuarded (refused (docs_refused preflight_failed)) code c.0)
                (λ _. execute_sync-IsSyncGuarded (or_left opts.dry_run (is_empty plan) y) (sym e)))
      under_threshold (some r) e = closed-IsSyncGuarded (refused r) code c.0

    with_list-IsSyncGuarded :
        {A : Type 0} (x : Option A) (next : A → SyncRun)
        → ((a : A) → x ≡ some a → IsSyncGuarded w opts (next a))
        → IsSyncGuarded w opts (with_list x code next)
    with_list-IsSyncGuarded none next h =
        closed-IsSyncGuarded (refused (docs_refused load_failed)) code c.0
    with_list-IsSyncGuarded (some x) next h = h x refl

    document_step-IsSyncGuarded : IsSyncGuarded w opts (document_step w opts n code)
    unfolding document_step sync_plan
    document_step-IsSyncGuarded = with_list-IsSyncGuarded w.docs.server_docs _ (λ server es.
        with_list-IsSyncGuarded w.docs.local_docs _ (λ local el.
          under_threshold server local es el (over_threshold opts (plan_of w server local)) refl))

  from_code-IsSyncGuarded :
      (c : CodeStep) → CodeGuarded opts c → IsSyncGuarded w opts (from_code w opts c)
  unfolding from_code
  from_code-IsSyncGuarded (stopped r code) h = closed-IsSyncGuarded (refused r) code h
  from_code-IsSyncGuarded (walked n code) h =
      if_split (IsSyncGuarded w opts) opts.skip_docs
        (λ _. closed-IsSyncGuarded (code_outcome opts n) code h.0)
        (λ d. document_step-IsSyncGuarded n code h d)

-- Whatever the options are and whatever the run meets, what it does is first nothing or one request to
-- parse the code, which needs that neither --dry-run nor --skip-code is set; and then nothing, or
-- the uploads, the deletions and at most one saved cache of the plan of the loaded lists, in that
-- order, which need that neither --dry-run nor --skip-docs is set, that the request to parse has
-- been made and has succeeded, unless --skip-code is set, and that the plan has no more insertions
-- and no more deletions than the thresholds, unless --yes is set.
pub run_sync_flow-IsSyncGuarded :
    (w : SyncWorld) (opts : SyncFlowOptions) → IsSyncGuarded w opts (run_sync_flow w opts)
unfolding run_sync_flow
run_sync_flow-IsSyncGuarded w opts =
    if_split (IsSyncGuarded w opts) (not w.docs.in_git_repository)
      (λ _. closed-IsSyncGuarded w opts _ [] (inl refl))
      (λ _.
        if_split (IsSyncGuarded w opts) (not (is_linked w.docs.project))
          (λ _. closed-IsSyncGuarded w opts _ [] (inl refl))
          (λ _.
            if_split (IsSyncGuarded w opts) (not w.docs.signed_in)
              (λ _. closed-IsSyncGuarded w opts _ [] (inl refl))
              (λ _. from_code-IsSyncGuarded w opts (code_step w opts) (code_step-guarded w opts))))
