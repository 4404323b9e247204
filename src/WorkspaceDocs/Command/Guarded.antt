-- ===== src/WorkspaceDocs/Command/Guarded.antt =====
-- When "workspace docs" changes anything.
use browzer_cli.Prelude.{true, false, ◌≡◌, ◌⊎◌}
use browzer_cli.WorkspaceDocs.Submit.{Flags}
use browzer_cli.WorkspaceDocs.Submit.Guarded.{IsGuarded}
use browzer_cli.WorkspaceDocs.Picker.{Terminal}
use browzer_cli.WorkspaceDocs.Picker.Guarded.{IsPickGuarded}
use browzer_cli.WorkspaceDocs.Sync.{SyncFlowOptions, SyncWorld, SyncRun}
use browzer_cli.WorkspaceDocs.Sync.Guarded.{IsSyncGuarded}
use browzer_cli.WorkspaceDocs.Command.{
  Mode, rejected, sync_mode, picker_mode, spec_mode, DocsRun, unstarted, synced, picked, specified,
  selects,
}

-- A sync without its code step, with the thresholds 50 and 50.
abbrev pub IsPlainSync : SyncWorld → Flags → SyncRun → Type 0
unfolding IsSyncGuarded
IsPlainSync w f r =
    (opts : SyncFlowOptions) × (opts.skip_code ≡ true)
    × (opts.skip_docs ≡ false)
    × (opts.dry_run ≡ f.dry_run)
    × (opts.yes ≡ f.yes)
    × (opts.confirm_adds ≡ 50)
    × (opts.confirm_deletes ≡ 50)
    × IsSyncGuarded w opts r

-- A sync, a run of the picker and a run by specs are guarded each in its way, and stand behind the
-- flags that lead to them.
unfoldable pub IsDocsGuarded : SyncWorld → Terminal → Flags → DocsRun → Type 0
unfolding IsPlainSync IsSyncGuarded IsPickGuarded IsGuarded
IsDocsGuarded w t f (unstarted r) = Unit
IsDocsGuarded w t f (synced r) =
    (selects f ≡ false) × (f.plan_only ≡ false) × (f.interactive ≡ false) × IsPlainSync w f r
IsDocsGuarded w t f (picked r) = (f.interactive ≡ true) × IsPickGuarded t f r
IsDocsGuarded w t f (specified r) =
    (f.interactive ≡ false) × ((selects f ≡ true) ⊎ (f.plan_only ≡ true)) × IsGuarded f r

-- What the flags are in each mode.
abbrev Leads : Flags → Mode → Type 0
Leads f (rejected r) = Unit
Leads f sync_mode = (selects f ≡ false) × (f.plan_only ≡ false) × (f.interactive ≡ false)
Leads f picker_mode = f.interactive ≡ true
Leads f spec_mode = (f.interactive ≡ false) × ((selects f ≡ true) ⊎ (f.plan_only ≡ true))
